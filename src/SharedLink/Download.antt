-- ===== src/SharedLink/Download.antt =====
-- What a download by a shared link rests on (services/shared_link_service.rs).
use simply_storage.Prelude.{
  ◌≢◌, sym, ap, ◌∙◌, subst, ◌⊎◌, ℕ, ◌≡◌, refl, String, Option, none, some, true, false, List, arith,
  if◌then◌else◌, is_some, Bool-cases, inl, inr,
}
use simply_storage.Error.{AppError, AppResult, ok, err, bind_ok, Result-cases}
use simply_storage.Db.File.{File}
use simply_storage.Db.Location.{FileLocation}
use simply_storage.Db.SharedLink.{find_by_token, increment_download_count}
use simply_storage.Db.SharedLink
use simply_storage.World.{World, Env, Bytes}
use simply_storage.SharedLink.{
  Crypto, SharedLinkDownloadResult, is_past, validate_link_accessible, validate_download_token,
  check_token, authorise, fetch, prepare, count_download, download_via_link,
}

pub record IsAuthorised (crypto : Crypto) (now : ℕ) (dl_token : Option String)
    (link : SharedLink.SharedLink) : Type 0 where
  pub active : link.is_active ≡ true
  pub in_time : is_past now link.expires_at ≡ false
  pub password :
      link.password_hash ≡ none
      ⊎ ((given : String) × (dl_token ≡ some given)
          × (validate_download_token crypto now given link.token link.id ≡ ok tt))

accessible :
    (now : ℕ) (link : SharedLink.SharedLink) (u : Unit {0})
    → validate_link_accessible now link ≡ ok u
    → (link.is_active ≡ true) × (is_past now link.expires_at ≡ false)
unfolding validate_link_accessible
accessible now link u h = ground arith

password_given :
    (crypto : Crypto) (now : ℕ) (link : SharedLink.SharedLink) (dl_token hash : Option String)
    (u : Unit {0})
    → (if is_some hash then check_token crypto now dl_token link else ok tt) ≡ ok u
    → (hash ≡ none)
      ⊎ ((given : String) × (dl_token ≡ some given)
          × (validate_download_token crypto now given link.token link.id ≡ ok tt))
password_given crypto now link dl_token none u h = inl refl
password_given crypto now link none (some hash) u h = cc
password_given crypto now link (some given) (some hash) u h = inr (given, refl, h)

authorised :
    (crypto : Crypto) (now : ℕ) (dl_token : Option String) (link : SharedLink.SharedLink)
    → authorise crypto now dl_token link ≡ ok tt
    → IsAuthorised crypto now dl_token link
unfolding authorise
authorised crypto now dl_token link h =
    let (u, reachable, next) = bind_ok (validate_link_accessible now link) _ tt h in
    let (a, t) = accessible now link u reachable in
    let (_, checked, _) =
      bind_ok (if is_some link.password_hash then check_token crypto now dl_token link else ok tt) _
        tt next in
    record {
      active = a;
      in_time = t;
      password = password_given crypto now link dl_token link.password_hash _ checked;
    }

err-ne-ok {ℓ} : {A : Type ℓ} {e : AppError} {a : A} → err e ≢ ok a
err-ne-ok h = cc

first_ok {ℓ κ} :
    {A : Type ℓ} {B : Type κ} {a c : A} {b d : B}
    → ◌≡◌ {A = AppResult (A × B)} (ok (a, b)) (ok (c, d))
    → a ≡ c
first_ok h = cc

prepare_ok :
    (crypto : Crypto) (now : ℕ) (env : Env) (token : String) (dl_token : Option String) (w : World)
    (link : SharedLink.SharedLink) (found : File × FileLocation × Bytes)
    → prepare crypto now env token dl_token w ≡ ok (link, found)
    → (find_by_token token w.shared_links ≡ ok link) × (authorise crypto now dl_token link ≡ ok tt)
unfolding prepare
prepare_ok crypto now env token dl_token w link found h =
    let (l, there, next) = bind_ok (find_by_token token w.shared_links) _ _ h in
    let (_, checked, rest) = bind_ok (authorise crypto now dl_token l) _ _ next in
    let (f, _, last) = bind_ok (fetch crypto now env l w) _ _ rest in
    let same = first_ok last in
    (there ∙ ap ok same, subst (λ k. authorise crypto now dl_token k ≡ ok tt) same checked)

module _ (crypto : Crypto) (now : ℕ) (env : Env)
    (meanwhile : List SharedLink.SharedLink → List SharedLink.SharedLink) (token : String)
    (dl_token : Option String) (w : World) where
  abbrev download : AppResult SharedLinkDownloadResult × World
  download = download_via_link crypto now env meanwhile token dl_token w

  download-refused :
      (e : AppError) → prepare crypto now env token dl_token w ≡ err e → download ≡ (err e, w)
  unfolding download_via_link
  download-refused e h = rw (h, download_via_link) refl

  download-counted :
      (link : SharedLink.SharedLink) (found : File × FileLocation × Bytes)
      → prepare crypto now env token dl_token w ≡ ok (link, found)
      → download ≡ count_download crypto now env meanwhile link found w
  unfolding download_via_link
  download-counted link found h = rw (h, download_via_link) refl

  count_download-ok :
      (link : SharedLink.SharedLink) (found : File × FileLocation × Bytes)
      (result : SharedLinkDownloadResult)
      → (count_download crypto now env meanwhile link found w).0 ≡ ok result
      → (increment_download_count now link.id (meanwhile w.shared_links)).0 ≡ true
  unfolding count_download
  count_download-ok link (file, location, content) result h =
      elim (Bool-cases (increment_download_count now link.id (meanwhile w.shared_links)).0) [
        | inl e ↦ e
        | inr e ↦ ground (arith, h, e)
      ]

  count_download-links :
      (link : SharedLink.SharedLink) (found : File × FileLocation × Bytes)
      → (count_download crypto now env meanwhile link found w).1.shared_links
        ≡ (increment_download_count now link.id (meanwhile w.shared_links)).1
  unfolding count_download
  count_download-links link (file, location, content) = refl

-- A download that succeeds was authorised on the link's row: active, not expired, and, when the link
-- has a password, with a valid token for it. The very increment of its count succeeded on the table
-- as the other requests had left it, and nothing else changed there.
pub download_via_link-IsAuthorised :
    (crypto : Crypto) (now : ℕ) (env : Env)
    (meanwhile : List SharedLink.SharedLink → List SharedLink.SharedLink) (token : String)
    (dl_token : Option String) (w : World) (result : SharedLinkDownloadResult)
    → (download_via_link crypto now env meanwhile token dl_token w).0 ≡ ok result
    → (link : SharedLink.SharedLink) × (find_by_token token w.shared_links ≡ ok link)
      × IsAuthorised crypto now dl_token link
      × ((increment_download_count now link.id (meanwhile w.shared_links)).0 ≡ true)
      × ((download_via_link crypto now env meanwhile token dl_token w).1.shared_links
          ≡ (increment_download_count now link.id (meanwhile w.shared_links)).1)
download_via_link-IsAuthorised crypto now env meanwhile token dl_token w result h =
    elim (Result-cases (prepare crypto now env token dl_token w)) [
      | inr (e, refused) ↦
          let eq = download-refused crypto now env meanwhile token dl_token w e refused in
          elim (err-ne-ok (sym (ap (λ r. r.0) eq) ∙ h)) [ ]
      | inl ((link, found), prepared) ↦
          let (there, checked) = prepare_ok crypto now env token dl_token w link found prepared in
          let eq = download-counted crypto now env meanwhile token dl_token w link found prepared in
          (
            link,
            there,
            authorised crypto now dl_token link checked,
            count_download-ok crypto now env meanwhile token dl_token w link found result
                (sym (ap (λ r. r.0) eq) ∙ h),
            ap (λ r. r.1.shared_links) eq
                ∙ count_download-links crypto now env meanwhile token dl_token w link found,
          )
    ]
