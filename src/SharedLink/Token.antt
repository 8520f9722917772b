-- ===== src/SharedLink/Token.antt =====
-- The short-lived tokens for links with a password (services/shared_link_service.rs).
use text.Mathlib.TextPositions.{eq_refl}
use simply_storage.Prelude.{ℕ, ◌+◌, ◌≤◌, ◌≡◌, ◌≢◌, refl, String, some, arith, eq_iff}
use simply_storage.Error.{ok, err, ok_or, ensure, bind_ok, bind_at, unauthorized}
use simply_storage.Db.SharedLink.{find_by_token}
use simply_storage.Db.SharedLink
use simply_storage.World.{World}
use simply_storage.SharedLink.{
  Crypto, DownloadTokenClaims, verify_password, validate_download_token, validate_link_accessible,
  generate_download_token, download_token_ttl_secs,
}

-- What is encoded is decoded until it expires.
abbrev pub IsFaithful : Crypto → Type 0
IsFaithful crypto =
    (claims : DownloadTokenClaims) (now : ℕ) (token : String)
    → crypto.encode claims ≡ ok token
    → now ≤ claims.exp
    → crypto.decode now token ≡ some claims

module _ (crypto : Crypto) where
  issued :
      (now : ℕ) (token password dl_token : String) (w : World) (link : SharedLink.SharedLink)
      → find_by_token token w.shared_links ≡ ok link
      → verify_password crypto now token password w ≡ ok dl_token
      → generate_download_token crypto now link.token link.id ≡ ok dl_token
  unfolding verify_password
  issued now token password dl_token w link found given =
      let (_, _, checked) =
        bind_ok (validate_link_accessible now link) _ dl_token (bind_at _ found given) in
      let (hash, _, verified) = bind_ok (ok_or link.password_hash _) _ dl_token checked in
      let (_, _, h) =
        bind_ok (ensure (crypto.check_password password hash) _) _ dl_token verified in
      h

  abbrev claims_of : ℕ → SharedLink.SharedLink → DownloadTokenClaims
  claims_of now link = record {
    sub = link.token;
    link_id = crypto.to_text link.id;
    exp = now + download_token_ttl_secs;
  }

  -- The token that a password opens is good for its link during 300 seconds, and at no time in them
  -- for another one, provided that the JWT library decodes what it encoded until it expires, and
  -- that different ids print differently.
  pub verify_password-validate_download_token :
      (now later : ℕ) (token password dl_token : String) (w : World) (link : SharedLink.SharedLink)
      → IsFaithful crypto
      → ((i j : ℕ) → crypto.to_text i ≡ crypto.to_text j → i ≡ j)
      → find_by_token token w.shared_links ≡ ok link
      → verify_password crypto now token password w ≡ ok dl_token
      → later ≤ now + 300
      → (validate_download_token crypto later dl_token link.token link.id ≡ ok tt)
        × ((other : ℕ) (t : String)
            → other ≢ link.id
            → validate_download_token crypto later dl_token t other
              ≡ err (unauthorized "Download token does not match this link"))
  unfolding validate_download_token generate_download_token
  verify_password-validate_download_token now later token password dl_token w link faithful distinct
        found given soon =
      let decoded =
        faithful (claims_of now link) later dl_token
          (issued now token password dl_token w link found given) soon in
      (
        rw decoded (rw eq_refl (rw eq_refl refl)),
        λ other t ne. rw decoded (
            ground (
              arith,
              ne,
              distinct link.id other,
              eq_iff (crypto.to_text link.id) (crypto.to_text other),
            )),
      )
