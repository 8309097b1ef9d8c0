-- ===== src/Gc.antt =====
-- cmd/packrune/gc.go: the sweep over the backend.
pub mod Safety
pub mod Files
pub mod DryRun
use packrune.Prelude.{
  ℕ, zero, suc, ◌+◌, Bool, true, false, Option, none, some, List, [], ◌∷◌, ◌++◌, Bytes, codes, ◌==◌,
  if◌then◌else◌, split, is_seen,
}
use packrune.Action.{Error, Result, ok, err, Action, ◌>>=◌, pure}
use packrune.Storage.{Backend, ListResult}
use packrune.Repo.Tables.{Artifact, Db, query}

-- What the loop counts.
pub record Sweep : Type 0 where
  pub scanned : ℕ
  pub orphans : ℕ
  pub freed : ℕ

abbrev digests : List Artifact → List Bytes
digests [] = []
digests (a ∷ rows) = a.digest ∷ digests rows

-- SELECT DISTINCT digest FROM artifacts; a digest that is listed twice is one entry of the map.
unfoldable pub referenced : Action Db (List Bytes)
referenced = query (λ db. ok (digests db.artifacts))

abbrev digest_of_parts : List Bytes → Option Bytes
digest_of_parts [] = none
digest_of_parts (a ∷ []) = none
digest_of_parts (a ∷ b ∷ []) = none
digest_of_parts (a ∷ b ∷ c ∷ []) = none
digest_of_parts (a ∷ alg ∷ c ∷ hex ∷ rest) = some (alg ++ (codes ":" ++ hex))

-- The digest that a key is read as; a key of fewer than four parts is passed over.
unfoldable pub key_digest : Bytes → Option Bytes
key_digest key = digest_of_parts (split key b'/')

abbrev add_size : Result ℕ → ℕ → ℕ
add_size (ok size) freed = freed + size
add_size (err e) freed = freed

module _ {S : Type 0} (b : Backend S) (dry_run : Bool) (live : List Bytes) where
  -- What an error of Delete says is printed, and the sweep goes on.
  abbrev remove_orphan : Bytes → Sweep → S → Sweep × S
  remove_orphan key t s =
      let (size, s1) = b.stat key s in
      (
        record t { orphans = t.orphans + 1; freed = add_size size t.freed },
        if dry_run then s1 else (b.delete key s1).1,
      )

  abbrev sweep_digest : Bytes → Option Bytes → Sweep → S → Sweep × S
  sweep_digest key none t s = (t, s)
  sweep_digest key (some d) t s = if is_seen d live then (t, s) else remove_orphan key t s

  unfoldable pub sweep_key : Bytes → Sweep → S → Sweep × S
  sweep_key key t s = sweep_digest key (key_digest key) (record t { scanned = t.scanned + 1 }) s

  unfoldable pub sweep_keys : List Bytes → Sweep → S → Sweep × S
  sweep_keys [] t s = (t, s)
  sweep_keys (key ∷ keys) t s = let (t1, s1) = sweep_key key t s in sweep_keys keys t1 s1

  abbrev page_size : ℕ
  page_size = 1000

  -- The loop over the pages, at most `n` of them: it answers none if there are more.
  unfoldable pub sweep_pages : ℕ → Bytes → Sweep → S → Option (Result Sweep) × S
  sweep_pages zero token t s = (none, s)
  sweep_pages (suc n) token t s =
      let (page, s1) = b.list (codes "blobs/") token page_size s in
      elim page [
        | err e ↦ (some (err e), s1)
        | ok p ↦
            let (t1, s2) = sweep_keys p.keys t s1 in
            if p.next_token == [] then (some (ok t1), s2) else sweep_pages n p.next_token t1 s2
      ]

  abbrev sweep : ℕ → S → Option (Result Sweep) × S
  sweep n s = sweep_pages n [] (record { scanned = 0; orphans = 0; freed = 0 }) s

-- runGC, once the configuration is read and the backend is open.
module _ {S : Type 0} (b : Backend S) (dry_run : Bool) (n : ℕ) where
  abbrev sweep_live : Result (List Bytes) → S → Option (Result Sweep) × S
  sweep_live (ok live) s = sweep b dry_run live n s
  sweep_live (err e) s = (some (err e), s)

  unfoldable pub run_gc : Db → S → Option (Result Sweep) × S
  run_gc db s = sweep_live (referenced db).0 s
