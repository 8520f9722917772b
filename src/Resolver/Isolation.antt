-- ===== src/Resolver/Isolation.antt =====
-- Projects that share a storage do not share a backend (services/backend_resolver.rs).
use Prim.Native.String.{count, ◌++◌ as str_append}
use text.Mathlib.TextPositions.{eq_refl}
use text.Mathlib.TextLemmas.{length-append, append_inj, append_cancel_left}
use simply_storage.Prelude.{
  ℕ, ◌≡◌, ◌≢◌, refl, ap, sym, ◌∙◌, String, Option, none, some, false, List, arith, str_eq, eq_iff,
  unwrap_or, Option-cases, Bool, true, ◌||◌, Bool-cases, trim, trim-dashed, has_space,
  starts_with_space, inl, inr,
}
use simply_storage.Error.{AppResult, ok}
use simply_storage.Json.{Members, Value, string, get, get-insert, as_str}
use simply_storage.Db.Storage.{
  Project, Storage, ProjectStorage, find_project, find_for_project_and_storage,
}
use simply_storage.Backend.{Backend, trim_key, trimmed, create_backend, create_backend-ok}
use simply_storage.Resolver.{
  container_key, container_value, apply_container_to_config, join_path, effective_container,
  resolve_project_backend, trim_end_slashes, with_prefix,
}

join_path_inj : (base c d : String) → join_path base c ≡ join_path base d → c ≡ d
join_path_inj base c d e = append_cancel_left "/" c d (append_cancel_left base _ _ e)

container_value_inj :
    (key : String) (config : Members) (c d : String)
    → container_value key config c ≡ container_value key config d
    → c ≡ d
unfolding container_value
container_value_inj key config c d e = ground (
  arith,
  join_path_inj (trim_end_slashes (unwrap_or (as_str (get "path" config)) "/data")) c d,
  join_path_inj (trim_end_slashes (unwrap_or (as_str (get "base_path" config)) "")) c d,
)

-- The name of a container that is not overridden tells the project's slug.
derived_inj :
    (s t i j : String)
    → count i ≡ count j
    → str_append s (str_append "-" i) ≡ str_append t (str_append "-" j)
    → s ≡ t
derived_inj s t i j same e =
    (append_inj e (
      omega (
        arith,
        ap count e,
        length-append s (str_append "-" i),
        length-append t (str_append "-" j),
        length-append "-" i,
        length-append "-" j,
        same,
      ))).0

string_inj : {s t : String} → ◌≡◌ {A = Option Value} (some (string s)) (some (string t)) → s ≡ t
string_inj e = cc

-- The two projects are assigned to the storage, with no container of their own choice.
abbrev pub IsDerived : ProjectStorage → Type 0
IsDerived ps = ps.container_override ≡ none

-- No white space is at an end of the container's name, so that none is trimmed.
abbrev pub IsPlain : (ℕ → String) → Project → ProjectStorage → Type 0
IsPlain short_id p ps = (starts_with_space p.slug ≡ false) × (has_space (short_id ps.id) ≡ false)

key-ne-prefix : (t key : String) → container_key t ≡ some key → str_eq "prefix" key ≡ false
unfolding container_key
key-ne-prefix t key h = ground (
  arith,
  eq_iff "prefix" key,
  eq_iff "prefix" "bucket",
  eq_iff "prefix" "container",
  eq_iff "prefix" "path",
  eq_iff "prefix" "base_path",
)

get-with_prefix :
    (key : String) (ps : ProjectStorage) (config : Members)
    → str_eq "prefix" key ≡ false
    → get key (with_prefix (some ps) config) ≡ get key config
get-with_prefix key ps config h = elim (Option-cases ps.prefix_override) [
  | inl e ↦ rw (e, with_prefix) refl
  | inr (prefix, e) ↦ rw (e, with_prefix) (rw get-insert (rw h refl))
]

get-apply_container :
    (config : Members) (t key container : String)
    → container_key t ≡ some key
    → get key (apply_container_to_config config t container)
      ≡ some (string (container_value key config container))
unfolding apply_container_to_config
get-apply_container config t key container h =
    rw (h, apply_container_to_config) (rw get-insert (rw eq_refl refl))

effective-derived :
    (short_id : ℕ → String) (p : Project) (ps : ProjectStorage)
    → IsDerived ps
    → effective_container short_id p (some ps) ≡ str_append p.slug (str_append "-" (short_id ps.id))
unfolding effective_container
effective-derived short_id p ps h = rw (h, effective_container) refl

-- A text that is trimmed stays.
get-trim_key :
    (j k v : String) (config : Members)
    → get k config ≡ some (string v)
    → trim v ≡ v
    → get k (trim_key j config) ≡ some (string v)
unfolding trim_key
get-trim_key j k v config h t = elim (Option-cases (as_str (get j config))) [
  | inl e ↦ rw (e, trim_key) h
  | inr (text, e) ↦ rw (e, trim_key) (rw get-insert (ground (arith, h, t, e, eq_iff j k)))
]

-- The types whose containers are trimmed.
abbrev is_trimming : String → Bool
is_trimming t = str_eq t "s3" || str_eq t "azure" || str_eq t "gcs"

container_value-trimming :
    (t key : String) (base : Members) (container : String)
    → is_trimming t ≡ true
    → container_key t ≡ some key
    → container_value key base container ≡ container
unfolding container_key container_value
container_value-trimming t key base container trims k = ground (
  arith,
  trims,
  k,
  eq_iff t "s3",
  eq_iff t "azure",
  eq_iff t "gcs",
  eq_iff key "path",
  eq_iff key "base_path",
  eq_iff "bucket" "path",
  eq_iff "container" "path",
  eq_iff "bucket" "base_path",
  eq_iff "container" "base_path",
)

get-trimmed :
    (t key : String) (base config : Members) (container : String)
    → container_key t ≡ some key
    → get key config ≡ some (string (container_value key base container))
    → trim container ≡ container
    → get key (trimmed t config) ≡ some (string (container_value key base container))
unfolding trimmed
get-trimmed t key base config container k h plain =
    let v = container_value key base container in
    elim (Bool-cases (is_trimming t)) [
      | inr e ↦ ground (arith, e, h)
      | inl e ↦
          let same : trim v ≡ v =
            ap trim (container_value-trimming t key base container e k)
            ∙ plain
            ∙ sym (container_value-trimming t key base container e k) in
          ground (
            arith,
            e,
            get-trim_key "container" key v config h same,
            get-trim_key "bucket" key v config h same,
            get-trim_key "endpoint_url" key v config h same,
            get-trim_key "region" key v (trim_key "endpoint_url" config),
            get-trim_key "bucket" key v (trim_key "region" (trim_key "endpoint_url" config)),
            same,
          )
    ]

resolve-eq :
    (short_id : ℕ → String) (client : Backend → AppResult (Unit {0})) (projects : List Project)
    (assignments : List ProjectStorage) (storage : Storage) (p : Project) (ps : ProjectStorage)
    (pid : ℕ)
    → find_project pid projects ≡ ok p
    → find_for_project_and_storage pid storage.id assignments ≡ some ps
    → resolve_project_backend short_id client projects assignments storage pid
      ≡ create_backend client storage.storage_type (
          with_prefix (some ps) (
            apply_container_to_config storage.config storage.storage_type
              (effective_container short_id p (some ps))))
unfolding resolve_project_backend
resolve-eq short_id client projects assignments storage p ps pid found assigned =
    rw (found, assigned) refl

get-resolved :
    (short_id : ℕ → String) (client : Backend → AppResult (Unit {0})) (projects : List Project)
    (assignments : List ProjectStorage) (storage : Storage) (p : Project) (ps : ProjectStorage)
    (pid : ℕ) (key : String) (b : Backend)
    → find_project pid projects ≡ ok p
    → find_for_project_and_storage pid storage.id assignments ≡ some ps
    → IsDerived ps
    → container_key storage.storage_type ≡ some key
    → IsPlain short_id p ps
    → resolve_project_backend short_id client projects assignments storage pid ≡ ok b
    → get key b.config
      ≡ some (
          string (
            container_value key storage.config
              (str_append p.slug (str_append "-" (short_id ps.id)))))
unfolding resolve_project_backend
get-resolved short_id client projects assignments storage p ps pid key b found assigned derived k
      plain h =
    let config =
      apply_container_to_config storage.config storage.storage_type
        (effective_container short_id p (some ps)) in
    ap (λ (b : Backend). get key b.config)
      (create_backend-ok client storage.storage_type (with_prefix (some ps) config) b
        (sym (resolve-eq short_id client projects assignments storage p ps pid found assigned) ∙ h))
    ∙ get-trimmed storage.storage_type key storage.config (with_prefix (some ps) config)
        (effective_container short_id p (some ps)) k
        (get-with_prefix key ps config (key-ne-prefix storage.storage_type key k)
          ∙ get-apply_container storage.config storage.storage_type key
              (effective_container short_id p (some ps)) k)
        (rw (effective-derived short_id p ps derived)
          (trim-dashed p.slug (short_id ps.id) plain.0 plain.1))
    ∙ rw (effective-derived short_id p ps derived) refl

-- Where a storage's type has containers, two projects that are assigned to it without a container
-- of their own choice get backends on different containers when their slugs differ, provided that
-- the first six characters of an id are six, and neither they nor the starts of the slugs white space.
pub backends_differ :
    (short_id : ℕ → String) (client : Backend → AppResult (Unit {0})) (projects : List Project)
    (assignments : List ProjectStorage) (storage : Storage) (p q : Project) (ps qs : ProjectStorage)
    (pid qid : ℕ) (key : String) (b c : Backend)
    → ((id : ℕ) → count (short_id id) ≡ 6)
    → find_project pid projects ≡ ok p
    → find_project qid projects ≡ ok q
    → find_for_project_and_storage pid storage.id assignments ≡ some ps
    → find_for_project_and_storage qid storage.id assignments ≡ some qs
    → IsDerived ps
    → IsDerived qs
    → container_key storage.storage_type ≡ some key
    → p.slug ≢ q.slug
    → IsPlain short_id p ps
    → IsPlain short_id q qs
    → resolve_project_backend short_id client projects assignments storage pid ≡ ok b
    → resolve_project_backend short_id client projects assignments storage qid ≡ ok c
    → get key b.config ≢ get key c.config
backends_differ short_id client projects assignments storage p q ps qs pid qid key b c six fp fq ap_
      aq dp dq k differ pp pq rb rc same =
    differ (
      derived_inj p.slug q.slug (short_id ps.id) (short_id qs.id) (six ps.id ∙ sym (six qs.id)) (
        container_value_inj key storage.config _ _ (
          string_inj (
            sym (
              get-resolved short_id client projects assignments storage p ps pid key b fp ap_ dp k
                pp rb)
            ∙ same
            ∙ get-resolved short_id client projects assignments storage q qs qid key c fq aq dq k pq
                rc))))
