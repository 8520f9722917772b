-- ===== src/Upload/Resume.antt =====
-- What a chunk of api/uploads.rs does to the temporary file and to the recorded offset.
use simply_storage.Prelude.{
  ℕ, ◌+◌, ◌≤◌, ◌<◌, ◌≡◌, refl, ap, Option, none, some, true, false, ◌||◌, List, [], ◌∷◌, ◌++◌,
  arith, ◌==◌, ltb, leb, length, length-append, find, Bool-cases, inl, inr, ==_refl,
}
use simply_storage.Error.{ok, err, bad_request}
use simply_storage.Db.File.{File}
use simply_storage.Db.UploadSession.{
  UploadSession, is_in_progress, has_id, is_at_offset, find_by_id, advance_offset,
}
use simply_storage.World.{Env, Bytes}
use simply_storage.Access.{AuthenticatedUser, is_admin}
use simply_storage.Upload.TempFiles.{read, read-write}
use simply_storage.Upload.{
  Uploads, load_owned_session, append_chunks, check_chunk, after_append, patch,
}

-- What was written is what the file has grown by, and stays below the declared size.
append_chunks-grows :
    (offset total_size : ℕ) (payload : List (Option Bytes)) (written : ℕ) (content : Bytes) (n : ℕ)
    → (append_chunks offset total_size payload written content).0 ≡ ok n
    → offset + written ≤ total_size
    → (length (append_chunks offset total_size payload written content).1 + written
        ≡ length content + n)
      × (offset + n ≤ total_size)
unfolding append_chunks
append_chunks-grows offset total_size [] written content n h fits = ground (arith, h)
append_chunks-grows offset total_size (none ∷ payload) written content n h fits = cc
append_chunks-grows offset total_size (some chunk ∷ payload) written content n h fits = ground (
  arith,
  h,
  append_chunks-grows offset total_size payload (written + length chunk) (content ++ chunk) n,
  length-append content chunk,
)

module _ (user : AuthenticatedUser) (id : ℕ) where
  -- The row with an id is the row with that id and its offset.
  find-is_at_offset :
      (sessions : List UploadSession) (s : UploadSession)
      → find (has_id id) sessions ≡ some s
      → is_in_progress s.status ≡ true
      → (find (is_at_offset id s.offset_bytes) sessions ≡ some s) × (s.id ≡ id)
  unfolding find
  find-is_at_offset [] s h going = cc
  find-is_at_offset (k ∷ sessions) s h going = elim (Bool-cases (has_id id k)) [
    | inl e ↦ ground (arith, e, h, going)
    | inr e ↦ ground (arith, e, h, find-is_at_offset sessions s)
  ]

  -- The session is the caller's and in progress, and its file holds what the offset says.
  pub record IsOpen (st : Uploads) (s : UploadSession) (content : Bytes) : Type 0 where
    pub found : find (has_id id) st.sessions ≡ some s
    pub permitted : (is_admin user || s.user_id == user.user_id) ≡ true
    pub going : is_in_progress s.status ≡ true
    pub there : read s.temp_path st.temp_files ≡ some content

  check_chunk-open :
      (st : Uploads) (s : UploadSession) (content : Bytes)
      → IsOpen st s content
      → check_chunk user id (some s.offset_bytes) st ≡ ok (s, content)
  unfolding check_chunk load_owned_session find_by_id
  check_chunk-open st s content h =
      rw (h.found, check_chunk) (rw (h.permitted, h.going) (rw ==_refl (rw h.there refl)))

  abbrev advanced : ℕ → ℕ → UploadSession → UploadSession
  advanced now new_offset s = record s { offset_bytes = new_offset; updated_at = now }

  advance_offset-found :
      (now new_offset : ℕ) (sessions : List UploadSession) (s : UploadSession)
      → find (is_at_offset id s.offset_bytes) sessions ≡ some s
      → (advance_offset now id s.offset_bytes new_offset sessions).0
        ≡ some (advanced now new_offset s)
  unfolding advance_offset
  advance_offset-found now new_offset sessions s h = rw (h, advance_offset) refl

  module _ (env : Env) (now : ℕ) (meanwhile : List File → List File) where
    -- A chunk that arrives whole and does not complete the file moves the offset by its length, and
    -- the file's length stays the offset.
    pub patch-advances :
        (st : Uploads) (s : UploadSession) (content content' : Bytes) (n : ℕ)
        (payload : List (Option Bytes))
        → IsOpen st s content
        → length content ≡ s.offset_bytes
        → append_chunks s.offset_bytes s.total_size payload 0 content ≡ (ok n, content')
        → s.offset_bytes + n < s.total_size
        → let (r, st') = patch env now meanwhile user id (some s.offset_bytes) payload st in
          (updated : UploadSession) × (r ≡ ok updated)
          × (updated.offset_bytes ≡ s.offset_bytes + n)
          × (read s.temp_path st'.temp_files ≡ some content')
          × (length content' ≡ updated.offset_bytes)
    unfolding patch after_append
    patch-advances st s content content' n payload h holds appended more =
        let below : leb s.total_size (s.offset_bytes + n) ≡ false = ground (arith, more) in
        let (grown, _) =
          append_chunks-grows s.offset_bytes s.total_size payload 0 content n
            (ap (λ x. x.0) appended) (omega (arith, more)) in
        let (at, same) = find-is_at_offset st.sessions s h.found h.going in
        rw (check_chunk-open st s content h, patch)
          (rw appended (
            rw same (
              rw (advance_offset-found now (s.offset_bytes + n) st.sessions s at) (
                rw below (
                  advanced now (s.offset_bytes + n) s,
                  refl,
                  refl,
                  rw read-write (rw ==_refl refl),
                  omega (arith, grown, holds, ap (λ x. length x.1) appended),
                )))))

    -- A payload that breaks off after a chunk leaves the chunk in the file and the offset where it
    -- was, so that the client is told to send the chunk again and it is then appended twice.
    pub patch-breaks_off :
        (st : Uploads) (s : UploadSession) (content chunk : Bytes) (payload : List (Option Bytes))
        → IsOpen st s content
        → s.offset_bytes + length chunk ≤ s.total_size
        → let (r, st') =
            patch env now meanwhile user id
              (some s.offset_bytes)
              (some chunk ∷ none ∷ payload)
              st in
          (r ≡ err (bad_request "Payload read error: {}"))
          × IsOpen st' s (content ++ chunk)
          × (check_chunk user id (some s.offset_bytes) st' ≡ ok (s, content ++ chunk))
    unfolding patch after_append append_chunks
    patch-breaks_off st s content chunk payload h fits =
        let fitting : ltb s.total_size (s.offset_bytes + 0 + length chunk) ≡ false =
          ground (arith, fits) in
        let opened : IsOpen _ s (content ++ chunk) = record {
          found = h.found;
          permitted = h.permitted;
          going = h.going;
          there = rw read-write (rw ==_refl refl);
        } in
        rw (check_chunk-open st s content h, patch)
          (rw fitting (refl, opened, check_chunk-open _ s (content ++ chunk) opened))
