-- ===== src/Docker/Upload/Sessions.antt =====
-- An upload in chunks: what is staged, and what a finished upload has checked.
use packrune.Prelude.{
  if◌then◌else◌, ℕ, ◌+◌, ◌≡◌, refl, false, none, some, List, [], ◌∷◌, ◌++◌, arith, Bytes, codes,
  length, length-append, ◌==◌, eq_iff, ==_refl,
}
use mathlib.Core.Path.{ap₂}
use packrune.Action.{Result, ok}
use packrune.Storage.{Backend}
use packrune.Storage.Disk.{find-store, read_file, copy_to, content}
use packrune.Storage.Cas.{digest_of}
use packrune.Repo.Tables.{Db}
use packrune.Repo.Store.{upsert_artifact}
use packrune.Repo.Rows.{content_at}
use packrune.Docker.World.{Session, World, range, Response, Request, Env}
use packrune.Docker.Upload.{
  find_session, without_session, drop, append, handle_upload_session, has_body, progress,
  octet_stream, on_patch,
}

-- The session of `id` has staged `body`.
pub record Staged {S : Type 0} (w : World S) (id : Bytes) (s : Session) (body : Bytes)
    : Type 0 where
  pub known : find_session id w.sessions ≡ some s
  pub named : s.id ≡ id
  pub bytes : content w.staging s.path ≡ some body
  pub counted : s.size ≡ length body

abbrev pub grown : Session → Bytes → Session
grown s chunk = record s { size = s.size + length chunk }

find_session-without :
    (id : Bytes) (ss : List Session) → find_session id (without_session id ss) ≡ none
unfolding find_session without_session
find_session-without id [] = refl
find_session-without id (s ∷ ss) = ground (arith, find_session-without id ss)

-- The method chooses the branch.
method-ne : (m : Bytes) (k k' : Bytes) → m ≡ k → (k == k') ≡ false → (m == k') ≡ false
method-ne m k k' e h = rw e h

-- The bytes of an upload that a PUT finishes: its own body, if it has one, goes behind those staged.
abbrev pub whole : Request → Bytes → Bytes
whole req body = if has_body req.length then body ++ req.body else body

module _ {S : Type 0} where
  pub drop-find : (id : Bytes) (w : World S) → find_session id (drop id w).1.sessions ≡ none
  unfolding drop
  drop-find id w = ground (arith, find_session-without id w.sessions)

  pub drop-db : (id : Bytes) (w : World S) → (drop id w).1.db ≡ w.db
  unfolding drop
  drop-db id w = ground arith

  append_calm :
      (w : World S) (id : Bytes) (s : Session) (body chunk : Bytes)
      → Staged w id s body
      → w.staging.faults ≡ []
      → ((append s chunk w).0 ≡ ok (s.size + length chunk))
        × Staged (append s chunk w).1 id (grown s chunk) (body ++ chunk)
        × ((append s chunk w).1.staging.faults ≡ [])
        × ((append s chunk w).1.storage ≡ w.storage)
        × ((append s chunk w).1.db ≡ w.db)
  unfolding append read_file copy_to find_session
  append_calm w id s body chunk h calm = (
    ground (arith, h.bytes),
    record {
      known = ground (arith, h.bytes, h.named, eq_iff id id, eq_iff s.id id);
      named = h.named;
      bytes = ground (
        arith,
        h.bytes,
        find-store s.path s.path (body ++ chunk) w.staging.files,
        ==_refl s.path,
      );
      counted = omega (arith, h.counted, length-append body chunk);
    },
    ground (arith, h.bytes),
    ground (arith, h.bytes),
    ground (arith, h.bytes),
  )

  module _ (sha256 : Bytes → Bytes) (b : Backend S) (repo : Bytes) (env : Env) where
    abbrev handle : Request → Bytes → Bytes → World S → Result Response × World S
    handle req name id w = handle_upload_session sha256 b repo env req name id w

    patch_branch :
        (req : Request) (name id : Bytes) (w : World S) (s : Session)
        → find_session id w.sessions ≡ some s
        → req.method ≡ codes "PATCH"
        → handle req name id w ≡ on_patch sha256 b repo env req name s w
    unfolding handle_upload_session
    patch_branch req name id w s known patch = rw (
      known,
      method-ne req.method (codes "PATCH") (codes "GET") patch (unfold ◌==◌ in refl),
      (eq_iff req.method (codes "PATCH")).1 patch,
    )

    -- When no call on the staging files fails, a PATCH to a session that has staged a body adds
    -- its own to it, answers 202 with the new size, and touches neither storage nor database.
    pub patch-Staged :
        (req : Request) (name id : Bytes) (w : World S) (s : Session) (body : Bytes)
        → Staged w id s body
        → w.staging.faults ≡ []
        → req.method ≡ codes "PATCH"
        → ((handle req name id w).0 ≡ ok (progress 202 name id (range (length (body ++ req.body)))))
          × Staged (handle req name id w).1 id (grown s req.body) (body ++ req.body)
          × ((handle req name id w).1.staging.faults ≡ [])
          × ((handle req name id w).1.storage ≡ w.storage)
          × ((handle req name id w).1.db ≡ w.db)
    unfolding handle_upload_session
    patch-Staged req name id w s body h calm patch =
        let done = append_calm w id s body req.body h calm in
        rw (patch_branch req name id w s h.known patch, done.0)
          (
            ap₂ (λ (i : Bytes) (n : ℕ). ok (progress 202 name i (range n))) h.named
                (omega (arith, h.counted, length-append body req.body)),
            done.1,
            done.2,
            done.3,
            done.4,
          )

    -- The database when the second row of an upload is written.
    abbrev first_row : Bytes → World S → Db
    first_row body w =
        (upsert_artifact env.row_id env.now repo (codes "blobs/" ++ digest_of sha256 body)
          (digest_of sha256 body) (length body) octet_stream [] w.db).1

    abbrev image_row : Bytes → Bytes → Bytes
    image_row name digest = codes "refs/" ++ (name ++ (codes "/blobs/" ++ digest))

    -- What a PUT that is answered 201 has done, when the session's file held `staged`.
    abbrev pub IsFinished : Request → Bytes → Bytes → Bytes → World S → Type 0
    IsFinished req name id staged w =
        (req.digest ≡ digest_of sha256 staged)
        × (find_session id w.sessions ≡ none)
        × (content_at w.db repo (codes "refs/" ++ (name ++ (codes "/blobs/" ++ req.digest)))
            ≡ some (record {
              digest = req.digest;
              size = length staged;
              media_type = octet_stream;
              metadata = codes "{}";
            }))
