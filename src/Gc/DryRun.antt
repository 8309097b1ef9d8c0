-- ===== src/Gc/DryRun.antt =====
-- What `--dry-run` leaves, and what the sweep counts.
use packrune.Prelude.{
  ℕ, zero, suc, ◌≡◌, inl, inr, refl, ◌∙◌, Bool, true, Option, List, [], ◌∷◌, arith, Bytes, codes,
  Option-cases,
}
use packrune.Action.{Result-cases}
use packrune.Storage.{Backend}
use packrune.Storage.Contract.{IsBackend}
use packrune.Repo.Tables.{Db}
use packrune.Gc.{Sweep, key_digest, referenced, sweep_key, sweep_keys, sweep_pages, run_gc}
use packrune.Gc.Safety.{IsListing}

module _ {S : Type 0} (b : Backend S) (object : S → Bytes → Option Bytes) (IsKey : Bytes → Type 0)
    (healthy : S → Bool) (laws : IsBackend b object IsKey healthy) (IsClean : S → Type 0)
    (listing : IsListing b object IsKey IsClean) (j : Bytes) where
  module _ (live : List Bytes) where
    dry_key-at :
        (key : Bytes) (t : Sweep) (s : S) → object (sweep_key b true live key t s).1 j ≡ object s j
    unfolding sweep_key
    dry_key-at key t s = elim (Option-cases (key_digest key)) [
      | inl e ↦ rw e
      | inr (e, p) ↦ ground (arith, p, laws.stat_at key j s)
    ]

    dry_keys-at :
        (keys : List Bytes) (t : Sweep) (s : S)
        → object (sweep_keys b true live keys t s).1 j ≡ object s j
    unfolding sweep_keys
    dry_keys-at [] t s = refl
    dry_keys-at (k ∷ keys) t s =
        let one = sweep_key b true live k t s in dry_keys-at keys one.0 one.1 ∙ dry_key-at k t s

    dry_pages-at :
        (n : ℕ) (token : Bytes) (t : Sweep) (s : S)
        → object (sweep_pages b true live n token t s).1 j ≡ object s j
    unfolding sweep_pages
    dry_pages-at zero token t s = refl
    dry_pages-at (suc n) token t s =
        let listed = b.list (codes "blobs/") token 1000 s in
        let at1 = listing.list_at (codes "blobs/") token 1000 j s in
        elim (Result-cases listed.0) [
          | inr (e, p) ↦ ground (arith, p, at1)
          | inl (r, p) ↦
              let swept = sweep_keys b true live r.keys t listed.1 in
              ground (
                arith,
                p,
                at1,
                dry_keys-at r.keys t listed.1,
                dry_pages-at n r.next_token swept.0 swept.1,
              )
        ]

  -- A dry run leaves the object of every key, however many pages it reads and whatever calls fail.
  pub run_gc-dry : (n : ℕ) (db : Db) (s : S) → object (run_gc b true n db s).1 j ≡ object s j
  unfolding run_gc
  run_gc-dry n db s = elim (Result-cases (referenced db).0) [
    | inr (e, p) ↦ rw p
    | inl (live, p) ↦
        ground (arith, p, dry_pages-at live n [] (record { scanned = 0; orphans = 0; freed = 0 }) s)
  ]
