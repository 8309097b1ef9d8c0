-- ===== src/Repo/Tables.antt =====
-- The entities of internal/repo/repo.go and store.go, and the tables of
-- migrations/0001_initial.up.sql that hold them.
use packrune.Prelude.{
  ℕ, Bool, false, ◌&&◌, ◌||◌, List, [], ◌∷◌, Bytes, codes, length, ◌==◌, leb, nat_eq, if◌then◌else◌,
  all, in_range,
}
use packrune.Action.{io, Result, err, Action}

pub record Repository : Type 0 where
  pub id : Bytes
  pub name : Bytes
  pub format : Bytes
  pub kind : Bytes
  pub config : Bytes
  pub created_at : ℕ
  pub updated_at : ℕ

pub record Artifact : Type 0 where
  pub id : Bytes
  pub repo_id : Bytes
  pub path : Bytes
  pub digest : Bytes
  pub size : ℕ
  pub media_type : Bytes
  pub metadata : Bytes
  pub created_at : ℕ

-- `faults` says which of the next queries fail; with no entry left every query succeeds.
pub record Db : Type 0 where
  pub repositories : List Repository
  pub artifacts : List Artifact
  pub faults : List Bool

-- The patterns and the order of the database engine.
pub record Engine : Type 0 where
  pub like : Bytes → Bytes → Bool
  pub order_by_path : List Artifact → List Artifact
  pub order_by_name : List Repository → List Repository

abbrev pub kind_hosted : Bytes
kind_hosted = codes "hosted"

abbrev pub kind_proxy : Bytes
kind_proxy = codes "proxy"

abbrev pub kind_group : Bytes
kind_group = codes "group"

-- Kind.Valid
unfoldable pub valid_kind : Bytes → Bool
valid_kind k = k == kind_hosted || (k == kind_proxy || k == kind_group)

abbrev pub is_alphanumeric : ℕ → Bool
is_alphanumeric c = in_range b'A' b'Z' c || (in_range b'a' b'z' c || in_range b'0' b'9' c)

abbrev pub is_repo_byte : ℕ → Bool
is_repo_byte c = is_alphanumeric c || (nat_eq c b'.' || (nat_eq c b'_' || nat_eq c b'-'))

-- ValidateName, with nameRe = ^[A-Za-z0-9][A-Za-z0-9._-]{0,62}$
unfoldable pub validate_name : Bytes → Bool
validate_name [] = false
validate_name (c ∷ s) = is_alphanumeric c && (all is_repo_byte s && leb (length s) 62)

abbrev head_fault : List Bool → Bool
head_fault [] = false
head_fault (f ∷ fs) = f

abbrev tail_faults : List Bool → List Bool
tail_faults [] = []
tail_faults (f ∷ fs) = fs

abbrev pub fault : Db → Bool
fault db = head_fault db.faults

abbrev pub after_call : Db → Db
after_call db = record db { faults = tail_faults db.faults }

-- A query that only reads.
abbrev pub query : {A : Type 0} → (Db → Result A) → Action Db A
query f db = if fault db then (err io, after_call db) else (f db, after_call db)
