-- ===== src/Restore.antt =====
-- cmd/packrune/restore.go: the files that a backup is unpacked to.
pub mod Confined
use packrune.Prelude.{
  ℕ, Bool, true, false, not, ◌&&◌, ◌||◌, Option, none, some, List, [], ◌∷◌, ◌++◌, Bytes, codes,
  ◌==◌, is_some, has_prefix, trim_prefix, if◌then◌else◌,
}
use packrune.Action.{Error, io, Result, ok, err, Action, ◌>>=◌, ◌>>◌, pure, raise, attempt}
use packrune.Storage.Disk.{Disk, Copied, read_file, plain_call, create_file, copy_to}
use packrune.Storage.Fs.{Root, join_path}
use packrune.Config.{Config}

-- An entry of the archive.
pub record Entry : Type 0 where
  pub name : Bytes
  pub is_dir : Bool
  pub body : Bytes

abbrev pub wal : Bytes → Bytes
wal dsn = dsn ++ codes "-wal"

abbrev pub shm : Bytes → Bytes
shm dsn = dsn ++ codes "-shm"

-- The path of an entry; `root` are the elements of the storage root, `dsn` is the path of the database.
unfoldable pub target : Root → Bytes → Bytes → Option Bytes
target root dsn name =
    if name == codes "db.sqlite"
    then some dsn
    else if name == codes "db.sqlite-wal"
    then some (wal dsn)
    else if name == codes "db.sqlite-shm"
    then some (shm dsn)
    else if has_prefix name (codes "storage/")
    then some (join_path root (trim_prefix name (codes "storage/")))
    else none

abbrev after_copy : Copied → Action Disk (Unit {0})
after_copy c d = if c.failed then (err io, (plain_call d).1) else plain_call d

-- The parent is made, the file is truncated, written and closed.
unfoldable pub write_entry : Bytes → Bytes → Action Disk (Unit {0})
write_entry dst body = do plain_call; create_file dst; c ← copy_to dst body; after_copy c

abbrev restore_to : Option Bytes → Entry → Action Disk (Unit {0})
restore_to none e d = (ok tt, d)
restore_to (some dst) e d = if e.is_dir then plain_call d else write_entry dst e.body d

-- The loop over what tar.Reader.Next delivers
unfoldable pub restore_entries : Root → Bytes → List (Result Entry) → Action Disk (Unit {0})
restore_entries root dsn [] = pure tt
restore_entries root dsn (err x ∷ es) = raise x
restore_entries root dsn (ok e ∷ es) =
    restore_to (target root dsn e.name) e >> restore_entries root dsn es

abbrev unpack : Root → Bytes → Result (List (Result Entry)) → Action Disk (Unit {0})
unpack root dsn (err x) = raise x
unpack root dsn (ok es) = do plain_call; plain_call; restore_entries root dsn es

abbrev unless_there : Bool → Result Bytes → Action Disk (Unit {0}) → Action Disk (Unit {0})
unless_there force (ok c) go d = if not force then (err io, d) else go d
unless_there force (err e) go d = go d

-- runRestore, once the configuration is loaded; `archive` is what opening and unpacking the input delivers.
unfoldable pub run_restore :
    Config → Root → Bool → Result (List (Result Entry)) → Action Disk (Unit {0})
run_restore cfg root force archive d =
    let dsn = cfg.database.dsn in
    if not (cfg.database.driver == codes "sqlite")
    then (err io, d)
    else if not (cfg.storage.backend == codes "fs")
    then (err io, d)
    else (do there ← attempt (read_file dsn); unless_there force there (unpack root dsn archive)) d
