-- ===== src/Audit.antt =====
-- internal/audit: the records of who did what, and their pages.
pub mod Pages
use packrune.Prelude.{
  ℕ, zero, suc, Bool, true, false, not, ◌&&◌, ◌||◌, Option, none, some, List, [], ◌∷◌, Bytes, codes,
  ◌==◌, ltb, leb, nat_eq, if◌then◌else◌, is_some, sort_by,
}
use packrune.Action.{io, Result, ok, err, Action, ◌>>=◌}
use packrune.Database.{Database, query, change}

-- Result of audit.go
pub data Outcome : Type 0 where
  allow deny done error : Outcome

-- The metadata of an event: none, or what encoding/json makes of it.
pub data Metadata : Type 0 where
  absent : Metadata
  encoded : Option Bytes → Metadata

pub record Event : Type 0 where
  pub user_id : Bytes
  pub action : Bytes
  pub target_type : Bytes
  pub target_id : Bytes
  pub result : Outcome
  pub metadata : Metadata
  pub remote_addr : Bytes

-- A row of `audit_log`, of migrations/0001_initial.up.sql.
pub record Row : Type 0 where
  pub id : Bytes
  pub user_id : Option Bytes
  pub action : Bytes
  pub target_type : Bytes
  pub target_id : Bytes
  pub result : Outcome
  pub metadata : Bytes
  pub remote_addr : Bytes
  pub created_at : ℕ

abbrev pub Log : Type 0
Log = List Row

unfoldable pub has_row : Bytes → Log → Bool
has_row id [] = false
has_row id (r ∷ rs) = let rest = has_row id rs in if r.id == id then true else rest

-- INSERT INTO audit_log, the newest first.
unfoldable pub insert_row : Row → Log → Result Log
insert_row r log = if has_row r.id log then err io else ok (r ∷ log)

abbrev metadata_text : Metadata → Result Bytes
metadata_text absent = ok (codes "{}")
metadata_text (encoded none) = err io
metadata_text (encoded (some text)) = ok text

abbrev nullable : Bytes → Option Bytes
nullable [] = none
nullable (c ∷ s) = some (c ∷ s)

abbrev lift : {A : Type 0} → Result A → Action (Database Log) A
lift r db = (r, db)

-- Write, of a Writer that has a database.
unfoldable pub write : Bytes → ℕ → Event → Action (Database Log) (Unit {0})
write id now e = do
  metadata ← lift (metadata_text e.metadata)
  change (
      insert_row (record {
        id = id;
        user_id = nullable e.user_id;
        action = e.action;
        target_type = e.target_type;
        target_id = e.target_id;
        result = e.result;
        metadata = metadata;
        remote_addr = e.remote_addr;
        created_at = now;
      }))

pub record Record : Type 0 where
  pub id : Bytes
  pub user_id : Bytes
  pub action : Bytes
  pub target_type : Bytes
  pub target_id : Bytes
  pub result : Outcome
  pub metadata : Bytes
  pub remote_addr : Bytes
  pub created_at : ℕ

abbrev or_empty : Option Bytes → Bytes
or_empty none = []
or_empty (some s) = s

abbrev record_of : Row → Record
record_of r = record {
  id = r.id;
  user_id = or_empty r.user_id;
  action = r.action;
  target_type = r.target_type;
  target_id = r.target_id;
  result = r.result;
  metadata = r.metadata;
  remote_addr = r.remote_addr;
  created_at = r.created_at;
}

unfoldable pub records_of : List Row → List Record
records_of [] = []
records_of (r ∷ rs) = record_of r ∷ records_of rs

-- The limit of a page; a limit that is not positive is given as 0.
abbrev pub page_limit : ℕ → ℕ
page_limit limit = if nat_eq limit 0 || ltb 500 limit then 100 else limit

-- WHERE created_at < ?
unfoldable pub older : ℕ → List Row → List Row
older before [] = []
older before (r ∷ rs) =
    let rest = older before rs in if ltb r.created_at before then r ∷ rest else rest

abbrev pub candidates : Option ℕ → List Row → List Row
candidates none log = log
candidates (some before) log = older before log

unfoldable pub take_rows : ℕ → List Row → List Row
take_rows zero rs = []
take_rows (suc n) [] = []
take_rows (suc n) (r ∷ rs) = r ∷ take_rows n rs

abbrev pub newer : Row → Row → Bool
newer a b = leb b.created_at a.created_at

-- ORDER BY created_at DESC LIMIT ?
unfoldable pub page : Option ℕ → ℕ → Log → List Row
page before limit log = take_rows (page_limit limit) (sort_by newer (candidates before log))

-- List; no time is the zero time.
unfoldable pub list : Option ℕ → ℕ → Action (Database Log) (List Record)
list before limit = query (λ log. ok (records_of (page before limit log)))
