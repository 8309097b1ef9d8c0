-- ===== src/Sql.antt =====
-- internal/db/db.go: the placeholders of statements and the names of data sources.
pub mod Migrate
use packrune.Prelude.{
  ℕ, suc, ◌+◌, ◌≡◌, refl, Bool, true, false, not, ◌&&◌, ◌||◌, [], ◌∷◌, ◌++◌, arith, Bytes, codes,
  ◌==◌, nat_eq, nat_eq_iff, has_prefix, count_by, if◌then◌else◌, append_assoc,
}
use packrune.Action.{Error, io, Result, ok, err}

abbrev pub postgres : Bytes
postgres = codes "postgres"

-- Behind placeholder n - 1; `itoa` is strconv.Itoa.
unfoldable pub rebind_from : (ℕ → Bytes) → ℕ → Bytes → Bytes
rebind_from itoa n [] = []
rebind_from itoa n (c ∷ s) =
    let next = rebind_from itoa (n + 1) s in
    let same = rebind_from itoa n s in if nat_eq c b'?' then b'$' ∷ (itoa n ++ next) else c ∷ same

-- Rebind
unfoldable pub rebind : (ℕ → Bytes) → Bytes → Bytes → Bytes
rebind itoa driver query = if not (driver == postgres) then query else rebind_from itoa 1 query

-- resolveDSN: the driver of database/sql; `made` says whether the directory of a SQLite file is there or
-- could be made.
unfoldable pub resolve_dsn : Bool → Bytes → Bytes → Result Bytes
resolve_dsn made driver dsn =
    if driver == codes "sqlite"
    then (if made then ok (codes "sqlite") else err io)
    else if driver == postgres
    then (if not (has_prefix dsn (codes "postgres://"))
          && not (has_prefix dsn (codes "postgresql://"))
        then err io
        else ok (codes "pgx"))
    else err io
