-- ===== src/Sql/Migrate.antt =====
-- internal/db/migrate.go: the migrations of the schema.
pub mod Stripped
pub mod Applied
pub mod Stuck
pub mod Again
use packrune.Prelude.{
  ℕ, Bool, true, false, not, ◌&&◌, ◌||◌, Option, none, some, List, [], ◌∷◌, ◌++◌, Bytes, codes,
  ◌==◌, has_prefix, lower_ascii, has_suffix, trim_suffix, cut, sort_by, if◌then◌else◌, in_range,
  ◌+◌, length, is_some,
}
use packrune.Action.{Error, io, Result, ok, err, Action}
use packrune.Database.{Database, query, change}
use packrune.Numbers.{ℤ, int_less, int_eq, parse_int}

-- An entry of the directory of migrations.
pub record Entry : Type 0 where
  pub name : Bytes
  pub is_dir : Bool
  pub content : Result Bytes

-- migration
pub record Migration : Type 0 where
  pub version : ℤ
  pub name : Bytes
  pub up_sql : Bytes

-- A row of schema_migrations.
pub record Mark : Type 0 where
  pub version : ℤ
  pub dirty : Bool

-- The schema: the rows of schema_migrations, whether that table is there, and the bodies that ran and were
-- committed.
pub record Schema : Type 0 where
  pub marks : List Mark
  pub has_table : Bool
  pub ran : List Bytes

abbrev pub Db : Type 0
Db = Database Schema

abbrev with_body : ℤ → Bytes → Result Bytes → Result Migration
with_body v name (err e) = err e
with_body v name (ok body) = ok (record { version = v; name = name; up_sql = body })

abbrev with_version : Bytes → Result Bytes → Result ℤ → Result Migration
with_version name content (err e) = err e
with_version name content (ok v) = with_body v name content

abbrev parse_base : Result Bytes → Option (Bytes × Bytes) → Result Migration
parse_base content none = err io
parse_base content (some ([], name)) = err io
parse_base content (some (c ∷ v, name)) = with_version name content (parse_int (c ∷ v))

unfoldable pub parse_entry : Entry → Result Migration
parse_entry e = parse_base e.content (cut (trim_suffix e.name (codes ".up.sql")) (codes "_"))

abbrev and_then : Result Migration → Result (List Migration) → Result (List Migration)
and_then (err e) rest = err e
and_then (ok m) (err e) = err e
and_then (ok m) (ok ms) = ok (m ∷ ms)

-- The loop over the entries
unfoldable pub parse_entries : List Entry → Result (List Migration)
parse_entries [] = ok []
parse_entries (e ∷ es) =
    let rest = parse_entries es in
    if e.is_dir || not (has_suffix e.name (codes ".up.sql"))
    then rest
    else and_then (parse_entry e) rest

abbrev earlier : Migration → Migration → Bool
earlier m n = int_less m.version n.version

abbrev sorted : Result (List Migration) → Result (List Migration)
sorted (err e) = err e
sorted (ok ms) = ok (sort_by earlier ms)

-- loadMigrations
unfoldable pub load_migrations : Result (List Entry) → Result (List Migration)
load_migrations (err e) = err e
load_migrations (ok entries) = sorted (parse_entries entries)

abbrev after_semicolon : Bytes → Bytes
after_semicolon t = elim (cut t (codes ";")) [ none ↦ t | some (statement, rest) ↦ rest ]

-- stripMigrationsTableCreate, of a text of ASCII
unfoldable pub strip_table_create : Bytes → Bytes
strip_table_create [] = []
strip_table_create (c ∷ s) =
    let rest = strip_table_create s in
    if has_prefix (lower_ascii (c ∷ s)) (codes "create table schema_migrations")
    then after_semicolon (c ∷ s)
    else c ∷ rest

abbrev pub is_at : ℤ → Mark → Bool
is_at v m = int_eq m.version v

unfoldable pub has_mark : (Mark → Bool) → List Mark → Bool
has_mark p [] = false
has_mark p (m ∷ ms) = p m || has_mark p ms

-- appliedVersions: applied[v], which reads the rows that are not dirty
abbrev pub is_applied : ℤ → List Mark → Bool
is_applied v marks = has_mark (λ m. is_at v m && not m.dirty) marks

-- INSERT INTO schema_migrations, with its primary key
abbrev insert_mark : ℤ → Schema → Result Schema
insert_mark v t =
    if has_mark (is_at v) t.marks
    then err io
    else ok (record t { marks = record { version = v; dirty = false } ∷ t.marks })

unfoldable pub set_dirty : ℤ → List Mark → List Mark
set_dirty v [] = record { version = v; dirty = true } ∷ []
set_dirty v (m ∷ ms) =
    let rest = set_dirty v ms in if is_at v m then record m { dirty = true } ∷ ms else m ∷ rest

-- INSERT INTO schema_migrations … ON CONFLICT (version) DO UPDATE
abbrev mark_dirty : ℤ → Action Db (Unit {0})
mark_dirty v = change (λ t. ok (record t { marks = set_dirty v t.marks }))

-- What Rollback leaves: the tables as they were when the transaction began.
abbrev rollback : Schema → Db → Db
rollback t db = record db { tables = t }

abbrev touch : Action Db (Unit {0})
touch = query (λ t. ok tt)

-- `runs` says which bodies the engine executes without an error, in a schema.
module _ (runs : Bytes → Schema → Bool) where
  abbrev execute : Bytes → Action Db (Unit {0})
  execute sql =
      change (λ t. if runs sql t then ok (record t { ran = t.ran ++ sql ∷ [] }) else err io)

  abbrev committed : Schema → Result (Unit {0}) × Db → Result (Unit {0}) × Db
  committed t (ok u, db) = (ok tt, db)
  committed t (err e, db) = (err e, rollback t db)

  abbrev inserted : Schema → Result (Unit {0}) × Db → Result (Unit {0}) × Db
  inserted t (ok u, db) = committed t (touch db)
  inserted t (err e, db) = (err e, rollback t db)

  abbrev executed : Schema → ℤ → Result (Unit {0}) × Db → Result (Unit {0}) × Db
  executed t v (ok u, db) = inserted t (change (insert_mark v) db)
  executed t v (err e, db) = (err e, (mark_dirty v (rollback t db)).1)

  abbrev begun : Migration → Result (Unit {0}) × Db → Result (Unit {0}) × Db
  begun m (ok u, db) = executed db.tables m.version (execute (strip_table_create m.up_sql) db)
  begun m (err e, db) = (err e, db)

  -- applyOne
  unfoldable pub apply_one : Migration → Action Db (Unit {0})
  apply_one m db = begun m (touch db)

  abbrev proceed : Result (Unit {0}) × Db → Action Db (Unit {0}) → Result (Unit {0}) × Db
  proceed (ok u, db) f = f db
  proceed (err e, db) f = (err e, db)

  -- The loop of ApplyMigrations; `applied` are the rows that were read before it.
  unfoldable pub apply_all : List Mark → List Migration → Action Db (Unit {0})
  apply_all applied [] db = (ok tt, db)
  apply_all applied (m ∷ ms) db =
      if is_applied m.version applied
      then apply_all applied ms db
      else proceed (apply_one m db) (apply_all applied ms)

  abbrev read_marks : Action Db (List Mark)
  read_marks = query (λ t. if t.has_table then ok t.marks else err io)

  -- CREATE TABLE IF NOT EXISTS schema_migrations
  abbrev ensure_table : Action Db (Unit {0})
  ensure_table = change (λ t. ok (record t { has_table = true }))

  abbrev from_marks : List Migration → Result (List Mark) × Db → Result (Unit {0}) × Db
  from_marks ms (ok marks, db) = apply_all marks ms db
  from_marks ms (err e, db) = (err e, db)

  abbrev with_table : List Migration → Result (Unit {0}) × Db → Result (Unit {0}) × Db
  with_table ms (ok u, db) = from_marks ms (read_marks db)
  with_table ms (err e, db) = (err e, db)

  abbrev run_loaded : Result (List Migration) → Action Db (Unit {0})
  run_loaded (err e) db = (err e, db)
  run_loaded (ok []) db = (err io, db)
  run_loaded (ok (m ∷ ms)) db = with_table (m ∷ ms) (ensure_table db)

  -- ApplyMigrations, of a directory that is given
  unfoldable pub apply_migrations : Result (List Entry) → Action Db (Unit {0})
  apply_migrations files db = run_loaded (load_migrations files) db
