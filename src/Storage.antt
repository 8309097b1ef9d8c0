-- ===== src/Storage.antt =====
-- internal/storage: the contract of a blob backend, and what every backend promises of it.
pub mod Disk
pub mod Contract
pub mod Fs
pub mod Cas
use packrune.Prelude.{ℕ, ◌≡◌, ◌≢◌, ◌⊎◌, Option, none, some, List, Bytes, length}
use packrune.Action.{Error, not_found, Result, ok, err, Action}

pub record ListResult : Type 0 where
  pub keys : List Bytes
  pub next_token : Bytes

-- `storage.Backend` over a state `S`. A reader is the bytes that it delivers; of `Stat` the source
-- reads the size.
pub record Backend (S : Type 0) : Type 0 where
  pub get : Bytes → Action S Bytes
  pub put : Bytes → Bytes → Action S ℕ
  pub append : Bytes → Bytes → Action S ℕ
  pub stat : Bytes → Action S ℕ
  pub delete : Bytes → Action S (Unit {0})
  pub list : Bytes → Bytes → ℕ → Action S ListResult
