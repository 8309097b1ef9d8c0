-- ===== src/Docker/World.antt =====
-- What the Docker handlers work on: the blob storage, the database and the upload sessions, with the
-- requests that they read and the responses that they write.
use packrune.Prelude.{ℕ, Bool, Option, List, [], ◌∷◌, Bytes, codes}
use packrune.Action.{Error, Result, ok, err, Action}
use packrune.Storage.Disk.{Disk}
use packrune.Repo.Tables.{Db}

-- uploadSession
pub record Session : Type 0 where
  pub id : Bytes
  pub path : Bytes
  pub size : ℕ

-- `sessions` is the map of the upload manager, and `staging` the disk below its root.
pub record World (S : Type 0) : Type 0 where
  pub storage : S
  pub db : Db
  pub sessions : List Session
  pub staging : Disk

module _ {S A : Type 0} where
  abbrev pub on_storage : Action S A → Action (World S) A
  on_storage m w = let (r, s) = m w.storage in (r, record w { storage = s })

  abbrev pub on_db : Action Db A → Action (World S) A
  on_db m w = let (r, d) = m w.db in (r, record w { db = d })

  abbrev pub on_staging : Action Disk A → Action (World S) A
  on_staging m w = let (r, d) = m w.staging in (r, record w { staging = d })

-- The error codes of error.go.
pub data ErrorCode : Type 0 where
  blob_unknown manifest_unknown manifest_invalid name_invalid digest_invalid : ErrorCode
  blob_upload_unknown name_unknown unauthorized denied unsupported : ErrorCode

-- A header's value: `range n` is "0-%d" with the size n less one.
pub data Value : Type 0 where
  text : Bytes → Value
  number : ℕ → Value
  range : ℕ → Value

pub data Body : Type 0 where
  empty version_object : Body
  error : ErrorCode → Body
  content : Bytes → Body
  tags : Bytes → List Bytes → Body
  repositories : List Bytes → Body

pub record Response : Type 0 where
  pub status : ℕ
  pub headers : List (Bytes × Value)
  pub body : Body

-- writeError
unfoldable pub write_error : ℕ → ErrorCode → Response
write_error status code = record {
  status = status;
  headers = (codes "Content-Type", text (codes "application/json")) ∷ [];
  body = error code;
}

-- Of a length that the client does not state, `length` is none.
pub record Request : Type 0 where
  pub method : Bytes
  pub path : Bytes
  pub digest : Bytes
  pub length : Option ℕ
  pub content_type : Bytes
  pub body : Bytes
  pub body_fails : Bool

-- What random numbers and the clock deliver while a request is handled.
pub record Env : Type 0 where
  pub session_id : Bytes
  pub nonce : Bytes
  pub row_id : Bytes
  pub second_row_id : Bytes
  pub now : ℕ

-- `if err != nil { answer; return }`
module _ {S A : Type 0} where
  abbrev pub answered :
      (Error → Action (World S) Response)
      → (A → Action (World S) Response)
      → Result A × World S
      → Result Response × World S
  answered fail go (ok a, w) = go a w
  answered fail go (err e, w) = fail e w

  abbrev pub checked :
      Action (World S) A
      → (Error → Action (World S) Response)
      → (A → Action (World S) Response)
      → Action (World S) Response
  checked m fail go w = answered fail go (m w)
