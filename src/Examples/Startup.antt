-- ===== src/Examples/Startup.antt =====
-- The theorems on the migrations, the configuration and the registry of formats at concrete inputs.
use packrune.Prelude.{
  ◌≡◌, refl, Bool, true, false, not, ◌&&◌, ◌||◌, Option, none, some, List, [], ◌∷◌, Bytes, codes,
  ◌==◌, is_some, is_seen, ascending, distinct, sort_by, has_suffix, strip_suffix?, trim_suffix, cut,
  strip_prefix?, all, has_prefix, lower_ascii, if◌then◌else◌, split, trim_prefix,
}
use packrune.Action.{not_found, Result, ok, err, is_ok}
use packrune.Numbers.{pos, parse_int, digits_onto}
use packrune.Sql.Migrate.{
  Entry, Migration, Schema, Db, load_migrations, parse_entries, parse_entry, apply_migrations,
  apply_all, apply_one, strip_table_create, has_mark,
}
use packrune.Sql.Migrate.Stuck.{is_stuck, apply_migrations-stuck}
use packrune.Sql.Migrate.Applied.{IsRun, pending}
use packrune.Sql.Migrate.Again.{apply_migrations-again, apply_migrations-ran}
use packrune.Config.{Config, defaults, load, apply_env, validate}
use packrune.Config.Layers.{IsValid, IsLayered, IsBase, load-IsValid}
use packrune.Format.Registry.{
  register, lookup, all_formats, names_of, IsRegistry, register-lookup, all_formats-names,
}
use packrune.Restore
use packrune.Restore.{restore_entries}
use packrune.Restore.Confined.{restore_entries-content}
use packrune.Storage.Fs.{Root, path_text}
use packrune.Storage.Disk.{Disk, content}
use packrune.Api.Sanitized.{sanitized, with_secrets, sanitized-IsAlike}

abbrev runs : Bytes → Schema → Bool
runs sql t = true

abbrev files : Result (List Entry)
files = ok (
    record { name = codes "2_hooks.up.sql"; is_dir = false; content = ok (codes "B;") }
    ∷ record { name = codes "1_init.up.sql"; is_dir = false; content = ok (codes "A;") }
    ∷ record { name = codes "1_init.down.sql"; is_dir = false; content = ok [] }
    ∷ [])

abbrev migrations : List Migration
migrations =
    record { version = pos 1; name = codes "init"; up_sql = codes "A;" }
    ∷ record { version = pos 2; name = codes "hooks"; up_sql = codes "B;" }
    ∷ []

files-load : load_migrations files ≡ ok migrations
unfolding load_migrations parse_entries parse_entry has_suffix strip_suffix? trim_suffix cut
    strip_prefix? parse_int digits_onto all sort_by ◌==◌
files-load = refl

abbrev empty : Db
empty = record { tables = record { marks = []; has_table = false; ran = [] }; faults = [] }

abbrev stuck : Db
stuck = record {
  tables = record {
    marks = record { version = pos 1; dirty = true } ∷ [];
    has_table = true;
    ran = [];
  };
  faults = [];
}

apply_migrations-ran_example :
    IsRun (pending [] migrations) empty.tables (apply_migrations runs files empty)
apply_migrations-ran_example = apply_migrations-ran runs files migrations empty files-load

first_run : (apply_migrations runs files empty).0 ≡ ok tt
unfolding apply_migrations apply_all apply_one has_mark strip_table_create load_migrations
    parse_entries parse_entry has_suffix strip_suffix? trim_suffix cut strip_prefix? has_prefix
    lower_ascii parse_int digits_onto all sort_by ◌==◌
first_run = refl

apply_migrations-again_example :
    let done = (apply_migrations runs files empty).1.tables in
    apply_migrations runs files (record { tables = done; faults = [] })
    ≡ (ok tt, record { tables = done; faults = [] })
apply_migrations-again_example = apply_migrations-again runs files empty first_run

apply_migrations-stuck_example :
    let done = apply_migrations runs files stuck in
    (is_stuck runs (pos 1) done.1.tables.marks ≡ true) × (is_ok done.0 ≡ false)
apply_migrations-stuck_example =
    apply_migrations-stuck runs (pos 1) files migrations stuck files-load refl
      (unfold has_mark in refl)

abbrev no_file : Bytes → Result Bytes
no_file path = err not_found

abbrev unmarshal : Bytes → Config → Result Config
unmarshal text c = ok c

abbrev env : Bytes → Option Bytes
env key = if key == codes "PACKRUNE_LOG_LEVEL" then some (codes "debug") else none

abbrev loaded : Config
loaded = record defaults { log = record { level = codes "debug"; format = codes "text" } }

load-IsValid_example :
    IsValid loaded
    × (base : Config) × IsBase no_file unmarshal (codes "p.yaml") false base
    × IsLayered env base loaded
load-IsValid_example =
    load-IsValid no_file unmarshal env (codes "p.yaml") false loaded
      (unfold load apply_env validate ◌==◌ in refl)

abbrev name_of : Bytes → Bytes
name_of f = f

abbrev registry : List (Bytes × Bytes)
registry = (codes "npm", codes "npm") ∷ (codes "helm", codes "helm") ∷ []

registry-IsRegistry : IsRegistry name_of registry
registry-IsRegistry = record {
  once = (unfold distinct is_seen ◌==◌ in refl);
  named = (refl, (refl, tt));
}

register-lookup_example :
    let refused = codes "pypi" == [] || is_some (lookup name_of (codes "pypi") registry) in
    let done = register name_of (codes "pypi") registry in
    IsRegistry name_of done.1
    × (is_ok done.0 ≡ not refused)
    × (lookup name_of (codes "npm") done.1 ≡ (
        if not refused && codes "pypi" == codes "npm"
        then some (codes "pypi")
        else lookup name_of (codes "npm") registry))
register-lookup_example =
    register-lookup name_of (codes "pypi") (codes "npm") registry registry-IsRegistry

all_formats-names_example :
    (ascending (names_of name_of (all_formats name_of registry)) ≡ true)
    × (is_seen (codes "npm") (names_of name_of (all_formats name_of registry))
        ≡ is_some (lookup name_of (codes "npm") registry))
all_formats-names_example = all_formats-names name_of registry (codes "npm") registry-IsRegistry

sanitized-IsAlike_example :
    sanitized (with_secrets (codes "top secret a") [] (codes "dsn 1") defaults)
    ≡ sanitized (with_secrets (codes "top secret b") [] (codes "dsn 2") defaults)
sanitized-IsAlike_example =
    sanitized-IsAlike (codes "top secret a") [] (codes "dsn 1") (codes "top secret b") []
      (codes "dsn 2") defaults
      (record { empty = (unfold ◌==◌ in refl); short = refl; start = refl })
      (record { empty = (unfold ◌==◌ in refl); short = refl; start = refl })
      (record { empty = (unfold ◌==◌ in refl); short = refl; start = refl })

abbrev storage_root : Root
storage_root = codes "srv" ∷ codes "data" ∷ []

abbrev archive : List (Result Restore.Entry)
archive = ok (record { name = codes "storage/blobs/x"; is_dir = false; body = codes "x" }) ∷ []

abbrev disk : Disk
disk = record { files = (codes "/srv/data2", codes "other") ∷ []; faults = [] }

restore_entries-content_example :
    content (restore_entries storage_root (codes "/srv/db") archive disk).1 (codes "/srv/data2")
    ≡ content disk (codes "/srv/data2")
restore_entries-content_example =
    restore_entries-content storage_root (codes "/srv/db") archive (codes "/srv/data2") disk
      (unfold trim_prefix strip_prefix? split ◌==◌ in ((refl, (refl, tt)), tt))
      (unfold ◌==◌ has_prefix strip_prefix? path_text in refl)
