-- ===== src/Sql/Migrate/Stuck.antt =====
-- internal/db/migrate.go: a migration that failed once is never applied.
use packrune.Prelude.{
  ◌≡◌, ◌⊎◌, inl, inr, refl, sym, ap, ◌∙◌, Bool, true, false, not, ◌&&◌, ◌||◌, List, [], ◌∷◌, arith,
  Bytes, Bool-cases,
}
use packrune.Action.{Error, Result, ok, err, is_ok}
use packrune.Database.{head_fault, tail_faults}
use packrune.Numbers.{ℤ, int_eq, eq_of_int_eq}
use packrune.Sql.Migrate.{
  Entry, load_migrations, run_loaded, apply_migrations, Migration, Mark, Schema, Db, is_at,
  has_mark, is_applied, set_dirty, apply_one, apply_all,
}
use packrune.Sql.Migrate.Applied.{apply_one-cases}

module _ (runs : Bytes → Schema → Bool) where
  -- A version whose row is dirty.
  abbrev pub is_stuck : ℤ → List Mark → Bool
  is_stuck v marks = has_mark (is_at v) marks && not (is_applied v marks)

  abbrev pub names : ℤ → List Migration → Bool
  names v [] = false
  names v (m ∷ ms) = int_eq m.version v || names v ms

  has_mark-set_dirty :
      (w v : ℤ) (marks : List Mark)
      → has_mark (is_at v) marks ≡ true
      → has_mark (is_at v) (set_dirty w marks) ≡ true
  unfolding set_dirty has_mark
  has_mark-set_dirty w v [] h = cc
  has_mark-set_dirty w v (m ∷ ms) h = ground (arith, h, has_mark-set_dirty w v ms)

  is_applied-set_dirty :
      (w v : ℤ) (marks : List Mark)
      → is_applied v marks ≡ false
      → is_applied v (set_dirty w marks) ≡ false
  unfolding set_dirty has_mark
  is_applied-set_dirty w v [] h = ground arith
  is_applied-set_dirty w v (m ∷ ms) h = ground (arith, h, is_applied-set_dirty w v ms)

  set_dirty-is_stuck :
      (w v : ℤ) (marks : List Mark)
      → is_stuck v marks ≡ true
      → is_stuck v (set_dirty w marks) ≡ true
  set_dirty-is_stuck w v marks h =
      ground (arith, h, has_mark-set_dirty w v marks, is_applied-set_dirty w v marks)

  applied-is_stuck :
      (w v : ℤ) (marks : List Mark)
      → has_mark (is_at w) marks ≡ false
      → is_stuck v marks ≡ true
      → is_stuck v (record { version = w; dirty = false } ∷ marks) ≡ true
  unfolding has_mark
  applied-is_stuck w v marks n h = elim (Bool-cases (int_eq w v)) [
    | inr e ↦ ground (arith, e, h)
    | inl e ↦
        let same : has_mark (is_at v) marks ≡ false =
          ap (λ (x : ℤ). has_mark (is_at x) marks) (sym (eq_of_int_eq w v e)) ∙ n in
        absurd (ground (arith, same, h))
  ]

  -- A dirty version stays dirty, and a run that comes to it fails.
  apply_all-is_stuck :
      (v : ℤ) (applied : List Mark) (ms : List Migration) (db : Db)
      → is_applied v applied ≡ false
      → is_stuck v db.tables.marks ≡ true
      → let done = apply_all runs applied ms db in
        (is_stuck v done.1.tables.marks ≡ true)
        × ((names v ms ≡ false) ⊎ ((e : Error) × (done.0 ≡ err e)))
  unfolding apply_all
  apply_all-is_stuck v applied [] db a h = (h, inl refl)
  apply_all-is_stuck v applied (m ∷ ms) db a h = elim (Bool-cases (is_applied m.version applied)) [
    | inl e ↦
        let rest = apply_all-is_stuck v applied ms db a h in
        let other : int_eq m.version v ≡ false = other_version m e in
        rw (apply_all, e) (rest.0, either other rest.1)
    | inr e ↦ elim (apply_one-cases runs m db) [
      | inl (o, n, t) ↦
          let db1 = (apply_one runs m db).1 in
          let kept : is_stuck v db1.tables.marks ≡ true =
            ap (λ (s : Schema). is_stuck v s.marks) t
            ∙ applied-is_stuck m.version v db.tables.marks n h in
          let rest = apply_all-is_stuck v applied ms db1 a kept in
          let other : int_eq m.version v ≡ false = unmarked m n in
          rw (apply_all, e, o) (rest.0, either other rest.1)
      | inr (x, o, inl t) ↦
          rw (apply_all, e, o) (ap (λ (s : Schema). is_stuck v s.marks) t ∙ h, inr (x, refl))
      | inr (x, o, inr t) ↦
          rw (apply_all, e, o)
            (
              ap (λ (s : Schema). is_stuck v s.marks) t
                  ∙ set_dirty-is_stuck m.version v db.tables.marks h,
              inr (x, refl),
            )
    ]
  ]
    where
      either :
          {e : Bool} {r : Result (Unit {0})}
          → e ≡ false
          → (names v ms ≡ false) ⊎ ((x : Error) × (r ≡ err x))
          → ((e || names v ms) ≡ false) ⊎ ((x : Error) × (r ≡ err x))
      either o (inl n) = inl (ground (arith, o, n))
      either o (inr x) = inr x

      other_version :
          (m : Migration) → is_applied m.version applied ≡ true → int_eq m.version v ≡ false
      other_version m e = elim (Bool-cases (int_eq m.version v)) [
        | inr k ↦ k
        | inl k ↦ absurd (
            ground (arith, a, e, ap (λ (x : ℤ). is_applied x applied) (eq_of_int_eq m.version v k)))
      ]

      unmarked :
          (m : Migration)
          → has_mark (is_at m.version) db.tables.marks ≡ false
          → int_eq m.version v ≡ false
      unmarked m n = elim (Bool-cases (int_eq m.version v)) [
        | inr k ↦ k
        | inl k ↦ absurd (
            ground (
              arith,
              n,
              h,
              ap (λ (x : ℤ). has_mark (is_at x) db.tables.marks) (eq_of_int_eq m.version v k),
            ))
      ]

  -- A version that stands dirty in the table when the migrations are applied is never applied again: every
  -- run over files that name it answers an error, whatever statements fail, and leaves it dirty.
  pub apply_migrations-stuck :
      (v : ℤ) (files : Result (List Entry)) (ms : List Migration) (db : Db)
      → load_migrations files ≡ ok ms
      → names v ms ≡ true
      → is_stuck v db.tables.marks ≡ true
      → let done = apply_migrations runs files db in
        (is_stuck v done.1.tables.marks ≡ true) × (is_ok done.0 ≡ false)
  unfolding apply_migrations
  apply_migrations-stuck v files ms db loaded named h = rw loaded (run ms named)
    where
      run :
          (l : List Migration)
          → names v l ≡ true
          → let done = run_loaded runs (ok l) db in
            (is_stuck v done.1.tables.marks ≡ true) × (is_ok done.0 ≡ false)
      run [] n = cc
      run (m ∷ l) n =
          let clean : is_applied v db.tables.marks ≡ false = ground (arith, h) in
          elim (Bool-cases (head_fault db.faults)) [
            | inl e ↦ rw e (h, refl)
            | inr e ↦ elim (Bool-cases (head_fault (tail_faults db.faults))) [
              | inl k ↦ rw (e, k) (h, refl)
              | inr k ↦
                  let ready : Db = record {
                    tables = record db.tables { has_table = true };
                    faults = tail_faults (tail_faults db.faults);
                  } in
                  let d = apply_all-is_stuck v db.tables.marks (m ∷ l) ready clean h in
                  rw (e, k)
                    (elim d.1 [
                      | inl x ↦ absurd (ground (arith, n, x))
                      | inr (x, failed) ↦ (d.0, ap (λ (r : Result (Unit {0})). is_ok r) failed)
                    ])
            ]
          ]
