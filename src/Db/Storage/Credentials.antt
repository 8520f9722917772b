-- ===== src/Db/Storage/Credentials.antt =====
-- Credentials in a storage's configuration: what `redacted` hides and what `update` of db/models.rs
-- keeps.
use simply_storage.Prelude.{
  String, Option, none, some, Bool, true, ◌≡◌, refl, List, [], ◌∷◌, arith, str_eq, eq_iff,
  if◌then◌else◌, exists, Bool-cases, Option-cases, inl, inr, or, ◌∙◌,
}
use simply_storage.Json.{Value, Members, get, insert, contains_key, get-insert}
use simply_storage.Db.Storage.{
  Storage, UpdateStorage, sensitive_config_keys, redacted_mark, redact_keys, redacted,
  should_preserve, preserve_key, merge_config, updated,
}

abbrev pub has_key : String → List String → Bool
has_key k keys = exists (λ key. str_eq key k) keys

abbrev pub hidden : Option Value → Option Value
hidden none = none
hidden (some _) = some redacted_mark

get-redact_step :
    (key k : String) (config : Members)
    → get k (if contains_key key config then insert key redacted_mark config else config)
      ≡ (if str_eq key k then hidden (get k config) else get k config)
unfolding contains_key
get-redact_step key k config = ground (arith, get-insert key k redacted_mark config, eq_iff key k)

-- What a client reads of a redacted configuration, at every key.
pub get-redact_keys :
    (k : String) (keys : List String) (config : Members)
    → get k (redact_keys keys config)
      ≡ (if has_key k keys then hidden (get k config) else get k config)
unfolding redact_keys exists
get-redact_keys k [] config = refl
get-redact_keys k (key ∷ keys) config =
    get-redact_keys k keys
      (if contains_key key config then insert key redacted_mark config else config)
    ∙ rw get-redact_step (ground arith)

-- What `update` writes where the table has `current` and the request has `sent`.
abbrev pub kept : Option Value → Option Value → Option Value
kept current sent = if should_preserve sent then or current sent else sent

kept_idem : (current sent : Option Value) → kept current (kept current sent) ≡ kept current sent
kept_idem current sent = ground arith

kept-hidden : (current : Option Value) → kept current (hidden current) ≡ current
kept-hidden none = refl
kept-hidden (some v) = refl

get-preserve_key :
    (key k : String) (current merged : Members)
    → get k (preserve_key key current merged)
      ≡ (if str_eq key k then kept (get k current) (get k merged) else get k merged)
unfolding preserve_key
get-preserve_key key k current merged = elim (Option-cases (get key current)) [
  | inl e ↦ rw e (ground (arith, eq_iff key k))
  | inr (v, e) ↦ rw e (ground (arith, eq_iff key k, get-insert key k v merged))
]

pub get-merge_config :
    (k : String) (keys : List String) (current merged : Members)
    → get k (merge_config keys current merged)
      ≡ (if has_key k keys then kept (get k current) (get k merged) else get k merged)
unfolding merge_config exists
get-merge_config k [] current merged = refl
get-merge_config k (key ∷ keys) current merged =
    get-merge_config k keys current (preserve_key key current merged)
    ∙ rw get-preserve_key (elim (Bool-cases (str_eq key k)) [
      | inl e ↦ rw e (ground (arith, kept_idem (get k current) (get k merged)))
      | inr e ↦ rw e (ground arith)
    ])

-- A client that sends back the redacted configuration which it was shown changes nothing: at every
-- key, a credential or not, the configuration reads as before.
pub update-redacted :
    (k : String) (input : UpdateStorage) (s : Storage)
    → input.config ≡ some (redacted s).config
    → get k (updated input s).config ≡ get k s.config
unfolding updated redacted
update-redacted k input s sent =
    rw (sent, updated)
      (get-merge_config k sensitive_config_keys s.config (redacted s).config
        ∙ rw get-redact_keys (elim (Bool-cases (has_key k sensitive_config_keys)) [
          | inl e ↦ rw e (kept-hidden (get k s.config))
          | inr e ↦ rw e refl
        ]))

-- After an update no credential of the table is lost or replaced by the redaction mark, whatever
-- the request sent; one that the request gave in clear is written as it was sent.
pub update_credential :
    (k : String) (input : UpdateStorage) (s : Storage) (config : Members) (v : Value)
    → input.config ≡ some config
    → has_key k sensitive_config_keys ≡ true
    → get k s.config ≡ some v
    → get k (updated input s).config
      ≡ (if should_preserve (get k config) then some v else get k config)
unfolding updated
update_credential k input s config v sent secret old =
    rw (sent, updated)
      (get-merge_config k sensitive_config_keys s.config config ∙ rw secret (rw old refl))
