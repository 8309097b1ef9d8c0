-- ===== src/Sql/Migrate/Again.antt =====
-- internal/db/migrate.go: once the migrations are applied, a further run changes nothing.
use packrune.Prelude.{
  ◌≡◌, ◌⊎◌, inl, inr, refl, sym, ap, ◌∙◌, Bool, true, ◌&&◌, List, [], ◌∷◌, append-nil, arith, Bytes,
  Bool-cases,
}
use packrune.Action.{Error, Result, ok, err, Result-cases}
use packrune.Database.{head_fault, tail_faults}
use packrune.Numbers.{ℤ, int_eq_refl}
use packrune.Sql.Migrate.{
  Entry, load_migrations, run_loaded, apply_migrations, Migration, Mark, Schema, Db, has_mark,
  is_applied, apply_one, apply_all,
}
use packrune.Sql.Migrate.Applied.{applied_to, apply_one-cases, pending, IsRun, apply_all-IsRun}

ok_err : (r : Result (Unit {0})) (x : Error) → r ≡ ok tt → r ≡ err x → ⊥
ok_err r x h k = ground (arith, h, k)

module _ (runs : Bytes → Schema → Bool) where
  -- Every version of a list has a row that is not dirty.
  abbrev pub all_applied : List Migration → List Mark → Bool
  all_applied [] marks = true
  all_applied (m ∷ ms) marks = is_applied m.version marks && all_applied ms marks

  -- The rows of `now` include the clean ones of `before`.
  abbrev Includes : List Mark → List Mark → Type 0
  Includes now before = (v : ℤ) → is_applied v before ≡ true → is_applied v now ≡ true

  applied_to-Includes : (m : Migration) (t : Schema) → Includes (applied_to m t).marks t.marks
  unfolding has_mark
  applied_to-Includes m t v h = ground (arith, h)

  applied_to-is_applied :
      (m : Migration) (t : Schema) → is_applied m.version (applied_to m t).marks ≡ true
  unfolding has_mark
  applied_to-is_applied m t = ground (arith, int_eq_refl m.version)

  apply_all-applied :
      (applied : List Mark) (ms : List Migration) (db : Db)
      → Includes db.tables.marks applied
      → (apply_all runs applied ms db).0 ≡ ok tt
      → let done = (apply_all runs applied ms db).1.tables in
        (all_applied ms done.marks ≡ true)
        × Includes done.marks db.tables.marks
        × (done.has_table ≡ db.tables.has_table)
  unfolding apply_all
  apply_all-applied applied [] db i o = (refl, (λ v h. h), refl)
  apply_all-applied applied (m ∷ ms) db i o = elim (Bool-cases (is_applied m.version applied)) [
    | inl e ↦
        let rest = apply_all-applied applied ms db i (sym (rw (apply_all, e) refl) ∙ o) in
        rw (apply_all, e) (ground (arith, rest.0, rest.1 m.version (i m.version e)), rest.1, rest.2)
    | inr e ↦ elim (apply_one-cases runs m db) [
      | inl (k, n, t) ↦
          let db1 = (apply_one runs m db).1 in
          let more : Includes db1.tables.marks db.tables.marks =
            rw t (applied_to-Includes m db.tables) in
          let here : is_applied m.version db1.tables.marks ≡ true =
            rw t (applied_to-is_applied m db.tables) in
          let rest =
            apply_all-applied applied ms db1 (λ v h. more v (i v h))
              (sym (rw (apply_all, e, k) refl) ∙ o) in
          rw (apply_all, e, k)
            (
              ground (arith, rest.0, rest.1 m.version here),
              (λ v h. rest.1 v (more v h)),
              rest.2 ∙ ap (λ (s : Schema). s.has_table) t,
            )
      | inr (x, k, t) ↦
          absurd (ok_err (apply_all runs applied (m ∷ ms) db).0 x o (rw (apply_all, e, k) refl))
    ]
  ]

  apply_all_again :
      (ms : List Migration) (db : Db)
      → all_applied ms db.tables.marks ≡ true
      → apply_all runs db.tables.marks ms db ≡ (ok tt, db)
  unfolding apply_all
  apply_all_again [] db h = refl
  apply_all_again (m ∷ ms) db h =
      let first : is_applied m.version db.tables.marks ≡ true = ground (arith, h) in
      rw (apply_all, first) (apply_all_again ms db (ground (arith, h)))

  -- What a run over files that could be read amounts to.
  run-cases :
      (m : Migration) (l : List Migration) (db : Db)
      → let done = run_loaded runs (ok (m ∷ l)) db in
        let ready = record db {
          tables = record db.tables { has_table = true };
          faults = tail_faults (tail_faults db.faults);
        } in
        ((e : Error) × (done.0 ≡ err e)
          × (done.1.tables.ran ≡ db.tables.ran)
          × (done.1.tables.marks ≡ db.tables.marks))
        ⊎ (done ≡ apply_all runs db.tables.marks (m ∷ l) ready)
  run-cases m l db = elim (Bool-cases (head_fault db.faults)) [
    | inl e ↦ rw e (inl (_, refl, refl, refl))
    | inr e ↦ elim (Bool-cases (head_fault (tail_faults db.faults))) [
      | inl k ↦ rw (e, k) (inl (_, refl, refl, refl))
      | inr k ↦ rw (e, k) (inr refl)
    ]
  ]

  run_again :
      (m : Migration) (l : List Migration) (t : Schema)
      → t.has_table ≡ true
      → all_applied (m ∷ l) t.marks ≡ true
      → run_loaded runs (ok (m ∷ l)) (record { tables = t; faults = [] })
        ≡ (ok tt, record { tables = t; faults = [] })
  run_again m l t there applied =
      ap (λ (x : Schema). apply_all runs t.marks (m ∷ l) (record { tables = x; faults = [] }))
        (ap (λ (x : Bool). record t { has_table = x }) (sym there))
      ∙ apply_all_again (m ∷ l) (record { tables = t; faults = [] }) applied

  again_loaded :
      (l : List Migration) (db : Db)
      → (run_loaded runs (ok l) db).0 ≡ ok tt
      → let done = (run_loaded runs (ok l) db).1.tables in
        run_loaded runs (ok l) (record { tables = done; faults = [] })
        ≡ (ok tt, record { tables = done; faults = [] })
  again_loaded [] db o = cc
  again_loaded (m ∷ l) db o =
      let ready : Db = record {
        tables = record db.tables { has_table = true };
        faults = tail_faults (tail_faults db.faults);
      } in
      elim (run-cases m l db) [
        | inl (x, k, r, s) ↦ absurd (ok_err (run_loaded runs (ok (m ∷ l)) db).0 x o k)
        | inr k ↦
            let a =
              apply_all-applied db.tables.marks (m ∷ l) ready (λ v h. h)
                (ap (λ (r : Result (Unit {0}) × Db). r.0) (sym k) ∙ o) in
            run_again m l (run_loaded runs (ok (m ∷ l)) db).1.tables (rw k a.2) (rw k a.0)
      ]

  -- When the migrations were applied without an error, a further run over the same files, with no
  -- statement failing, answers no error and leaves the schema as it is.
  pub apply_migrations-again :
      (files : Result (List Entry)) (db : Db)
      → (apply_migrations runs files db).0 ≡ ok tt
      → let done = (apply_migrations runs files db).1.tables in
        apply_migrations runs files (record { tables = done; faults = [] })
        ≡ (ok tt, record { tables = done; faults = [] })
  unfolding apply_migrations
  apply_migrations-again files db o = elim (Result-cases (load_migrations files)) [
    | inr (e, x) ↦ absurd (ok_err (run_loaded runs (load_migrations files) db).0 e o (rw x refl))
    | inl (l, e) ↦ rw e (
        again_loaded l db
          (ap (λ (r : Result (List Migration)). (run_loaded runs r db).0) (sym e) ∙ o))
  ]

  -- A run over files that could be read executes the migrations that no clean row names, from the first on
  -- and in their order: the text of each without the first statement that creates the table of the rows.
  -- Those that ran have a clean row each. All of them ran if no error is answered; otherwise nothing is left
  -- of the one that failed but at most a dirty row.
  pub apply_migrations-ran :
      (files : Result (List Entry)) (ms : List Migration) (db : Db)
      → load_migrations files ≡ ok ms
      → IsRun (pending db.tables.marks ms) db.tables (apply_migrations runs files db)
  unfolding apply_migrations pending
  apply_migrations-ran files [] db loaded =
      rw loaded ([], [], [], refl, refl, sym (append-nil db.tables.ran), inr (_, refl, inl refl))
  apply_migrations-ran files (m ∷ l) db loaded = elim (run-cases m l db) [
    | inl (x, k, r, s) ↦
        rw (loaded, k)
          (
            [],
            pending db.tables.marks (m ∷ l),
            [],
            refl,
            refl,
            r ∙ sym (append-nil db.tables.ran),
            inr (x, refl, inl s),
          )
    | inr k ↦
        rw (loaded, k)
          (apply_all-IsRun runs db.tables.marks (m ∷ l) (record {
            tables = record db.tables { has_table = true };
            faults = tail_faults (tail_faults db.faults);
          }))
  ]
