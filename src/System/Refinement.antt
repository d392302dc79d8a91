-- ===== src/System/Refinement.antt =====
-- The API's handlers over the storage in memory against a map from users to avatars.
use avatars.Prelude.{
  ℕ, ℤ, String, Option, none, some, List, [], ◌∷◌, ◌≡◌, refl, ◌==◌, eq_iff, arith, lookup,
  lookup-insert, lookup-delete, trim_space, inl, inr, if◌then◌else◌,
}
use avatars.Models.{Avatar, status_pending, status_ready}
use avatars.Http.{
  Response, AvatarResponse, no_body, error_response, upload_response, avatar_response, write_json,
}
use avatars.Storage.Mem
use avatars.Storage.Mem.{MemStorage, mem_storage, stamped}
use avatars.Handler.{Handler, new_handler}
use avatars.Handler.Upload.{
  UploadRequest, rejected, accepted, upload_checks, upload_avatar, pending_avatar,
}
use avatars.Handler.Avatars.{get_avatar, delete_avatar, to_response, response_of}
use avatars.Queue.Retry.{Table, publish_avatar_process}
use avatars.System.{World, Json, api, sign}
use avatars.System.Rows.Calls.{Checked-cases}

-- A request to a handler: an upload with its fresh message id, a get or a deletion of a user's avatar.
pub data Call : Type 0 where
  upload : String → UploadRequest → Call
  get delete : String → Call

-- The users' avatars.
abbrev pub Users : Type 0
Users = String → Option Avatar

-- The view of an avatar, with signed URLs if it is ready.
abbrev view : Avatar → AvatarResponse
view a =
    if a.status == status_ready
    then record (response_of a) {
      original_url = sign a.original_key;
      thumbnail_url = sign a.thumbnail_key;
    }
    else response_of a

abbrev failed : ℕ → String → Response
failed status reason = write_json status (error_response reason)

abbrev viewed : Option Avatar → Response
viewed none = failed 404 "avatar not found"
viewed (some a) = write_json 200 (avatar_response (view a))

abbrev gone : Option Avatar → Response
gone none = failed 404 "avatar not found"
gone (some _) = record { status = 204; body = no_body }

-- The specification: an upload that the checks accept gives the user a pending avatar, a deletion
-- takes it away, and a get shows it.
unfoldable pub spec : ℕ → ℕ → Call → Users → Response × Users
spec limit now (upload message_id r) users = elim (upload_checks limit r) [
  | rejected status reason ↦ (failed status reason, users)
  | accepted user _ _ ↦ (
    write_json 202 (upload_response user status_pending message_id),
    λ k. if user == k then some (stamped now (pending_avatar user message_id)) else users k,
  )
]
spec limit now (get path_value) users =
    let user = trim_space path_value in
    (if user == "" then failed 400 "user_id required" else viewed (users user), users)
spec limit now (delete path_value) users =
    let user = trim_space path_value in
    if user == ""
    then (failed 400 "user_id required", users)
    else (gone (users user), λ k. if user == k then none else users k)

-- The world holds the users' avatars, at this time.
abbrev pub Holds : ℕ → Users → World MemStorage → Type 0
Holds now users w = ((k : String) → lookup k w.db.avatars ≡ users k) × (w.db.now ≡ now)

module _ (json : Json) (injected : Table) (max_upload : ℤ) where
  abbrev handlers : Handler (World MemStorage)
  handlers = api mem_storage json injected max_upload

  unfoldable pub serve : Call → World MemStorage → Response × World MemStorage
  serve (upload message_id r) = upload_avatar handlers message_id r
  serve (get path_value) = get_avatar handlers path_value
  serve (delete path_value) = delete_avatar handlers path_value

  abbrev Refines : ℕ → Call → Users → World MemStorage → Type 0
  Refines now call users w =
      ((serve call w).0 ≡ (spec handlers.max_upload now call users).0)
      × Holds now (spec handlers.max_upload now call users).1 (serve call w).1

  get-Refines :
      (path_value : String) (now : ℕ) (users : Users) (w : World MemStorage)
      → Holds now users w
      → Refines now (get path_value) users w
  unfolding serve spec get_avatar Mem.get_avatar to_response new_handler
  get-Refines path_value now users w (held, clock) = (
    ground (arith, held (trim_space path_value)),
    (λ k. ground (arith, held k), ground (arith, clock)),
  )

  delete-Refines :
      (path_value : String) (now : ℕ) (users : Users) (w : World MemStorage)
      → Holds now users w
      → Refines now (delete path_value) users w
  unfolding serve spec delete_avatar Mem.get_avatar Mem.delete_avatar new_handler
  delete-Refines path_value now users w (held, clock) =
      let user = trim_space path_value in
      (
        ground (arith, held user),
        (
          λ k. ground (arith, held user, held k, eq_iff user k, lookup-delete user k w.db.avatars),
          ground (arith, clock),
        ),
      )

  upload-Refines :
      (message_id : String) (r : UploadRequest) (now : ℕ) (users : Users) (w : World MemStorage)
      → Holds now users w
      → Refines now (upload message_id r) users w
  unfolding serve spec upload_avatar Mem.upsert_avatar publish_avatar_process new_handler
  upload-Refines message_id r now users w (held, clock) =
      elim (Checked-cases (upload_checks handlers.max_upload r)) [
        | inl (status, reason, e) ↦
            (ground arith, (λ k. ground (arith, held k), ground (arith, clock)))
        | inr (user, filename, content, e) ↦ (
          ground arith,
          (
            λ k. ground (
              arith,
              held k,
              clock,
              lookup-insert user k (stamped w.db.now (pending_avatar user message_id)) w.db.avatars,
            ),
            ground (arith, clock),
          ),
        )
      ]

  call-Refines :
      (call : Call) (now : ℕ) (users : Users) (w : World MemStorage)
      → Holds now users w
      → Refines now call users w
  call-Refines (upload message_id r) = upload-Refines message_id r
  call-Refines (get path_value) = get-Refines path_value
  call-Refines (delete path_value) = delete-Refines path_value

-- The answers to calls that come one after the other, and the state that they leave.
unfoldable pub answer_all :
    {S : Type 0} → (Call → S → Response × S) → List Call → S → List Response × S
answer_all step [] s = ([], s)
answer_all step (call ∷ calls) s =
    let (resp, s1) = step call s in let (resps, s2) = answer_all step calls s1 in (resp ∷ resps, s2)

-- Over the storage in memory, an object store that keeps its files and a broker that takes every
-- message, the handlers answer any uploads, gets and deletions, one after the other, as a map from
-- users to avatars does, and the storage holds what the map holds: an upload that the checks reject is
-- answered by their status and reason, and one that they accept 202, which leaves a pending avatar with
-- the time of the call; a get is answered 200 with the user's avatar, with signed URLs if it is ready,
-- and a deletion 204, or both 404 for an unknown user and 400 for a blank user id.
pub answer_all-Refines :
    (json : Json) (injected : Table) (max_upload : ℤ) (calls : List Call) (now : ℕ) (users : Users)
    (w : World MemStorage)
    → Holds now users w
    → let impl = answer_all (serve json injected max_upload) calls w in
      let abstract =
        answer_all (spec (handlers json injected max_upload).max_upload now) calls users in
      (impl.0 ≡ abstract.0) × Holds now abstract.1 impl.1
unfolding answer_all
answer_all-Refines json injected max_upload [] now users w holds = (refl, holds)
answer_all-Refines json injected max_upload (call ∷ calls) now users w holds =
    let (same, holds1) = call-Refines json injected max_upload call now users w holds in
    let limit = (handlers json injected max_upload).max_upload in
    let (later, holds2) =
      answer_all-Refines json injected max_upload calls now (spec limit now call users).1
        (serve json injected max_upload call w).1 holds1 in
    (cc, holds2)
