-- ===== src/Format.antt =====
-- What the format handlers of internal/format share: an HTTP request, the state a handler works on,
-- the two calls that store a body at a path, and the fetch from an upstream that is stored.
pub mod Stored
pub mod Calm
pub mod Registry
use packrune.Prelude.{
  ℕ, Bool, ◌||◌, Option, none, some, List, [], ◌∷◌, Bytes, codes, length, ◌==◌, leb, if◌then◌else◌,
}
use packrune.Action.{Error, not_found, io, Result, ok, err, Action, ◌>>=◌, ◌>>◌, pure}
use packrune.Storage.{Backend}
use packrune.Storage.Cas
use packrune.Repo.Tables.{Db}
use packrune.Repo.Store.{upsert_artifact}

-- What the handlers work on.
pub record World (S : Type 0) : Type 0 where
  pub storage : S
  pub db : Db

-- What an upstream answered.
pub record Upstream : Type 0 where
  pub status : ℕ
  pub body : Bytes
  pub body_fails : Bool

pub record Request : Type 0 where
  pub method : Bytes
  pub path : Bytes
  pub body : Bytes
  pub body_fails : Bool

-- What random numbers and the clock deliver.
pub record Env : Type 0 where
  pub nonce : Bytes
  pub row_id : Bytes
  pub now : ℕ

abbrev pub is_read : Bytes → Bool
is_read method = method == codes "GET" || method == codes "HEAD"

module _ {S A : Type 0} where
  abbrev pub on_storage : Action S A → Action (World S) A
  on_storage m w = let (r, s) = m w.storage in (r, record w { storage = s })

  abbrev pub on_db : Action Db A → Action (World S) A
  on_db m w = let (r, d) = m w.db in (r, record w { db = d })

  abbrev pub lift : Result A → Action (World S) A
  lift r w = (r, w)

abbrev pub good_status : Result Upstream → Result Bytes
good_status (ok u) = if leb 400 u.status then err io else if u.body_fails then err io else ok u.body
good_status (err e) = err e

module _ {S : Type 0} (sha256 : Bytes → Bytes) (b : Backend S) (env : Env) where
  -- The body is put into the content-addressable store and its row is written, with metadata.
  abbrev pub store_with : Bytes → Bytes → Bytes → Bytes → Bytes → Action (World S) (Unit {0})
  store_with repo_id path media_type metadata body = do
    stored ← on_storage (Cas.put sha256 b env.nonce body)
    on_db
        (upsert_artifact env.row_id env.now repo_id path stored.0 (length body) media_type metadata)

  abbrev pub store_at : Bytes → Bytes → Bytes → Bytes → Action (World S) (Unit {0})
  store_at repo_id path media_type body = store_with repo_id path media_type [] body

  -- What an upstream that is configured answered is stored, and answered.
  unfoldable pub fetch_at : Bytes → Result Upstream → Bytes → Bytes → Bytes → Action (World S) Bytes
  fetch_at upstream answer repo_id path media_type w =
      if upstream == []
      then (err io, w)
      else (do body ← lift (good_status answer); store_at repo_id path media_type body; pure body) w
