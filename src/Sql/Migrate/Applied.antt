-- ===== src/Sql/Migrate/Applied.antt =====
-- internal/db/migrate.go: what the migrations leave behind, whatever statements fail.
use packrune.Prelude.{
  ◌≡◌, ◌⊎◌, inl, inr, refl, sym, ap, ◌∙◌, Bool, false, List, [], ◌∷◌, ◌++◌, append_assoc,
  append-nil, Bytes, if◌then◌else◌, Bool-cases,
}
use mathlib.Core.Path.{subst}
use packrune.Action.{Error, Result, ok, err}
use packrune.Sql.Migrate.Stripped.{IsStripped, strip_table_create-IsStripped}
use packrune.Database.{head_fault, tail_faults}
use packrune.Sql.Migrate.{
  Migration, Mark, Schema, Db, strip_table_create, is_at, has_mark, is_applied, set_dirty,
  apply_one, apply_all,
}

abbrev pub applied_to : Migration → Schema → Schema
applied_to m t = record t {
  marks = record { version = m.version; dirty = false } ∷ t.marks;
  ran = t.ran ++ strip_table_create m.up_sql ∷ [];
}

abbrev pub marked_dirty : Migration → Schema → Schema
marked_dirty m t = record t { marks = set_dirty m.version t.marks }

module _ (runs : Bytes → Schema → Bool) where
  -- A migration is applied whole, or leaves at most a dirty mark.
  pub apply_one-cases :
      (m : Migration) (db : Db)
      → let done = apply_one runs m db in
        ((done.0 ≡ ok tt)
          × (has_mark (is_at m.version) db.tables.marks ≡ false)
          × (done.1.tables ≡ applied_to m db.tables))
        ⊎ ((e : Error) × (done.0 ≡ err e)
            × ((done.1.tables ≡ db.tables) ⊎ (done.1.tables ≡ marked_dirty m db.tables)))
  unfolding apply_one
  apply_one-cases m db =
      let f1 = tail_faults db.faults in
      let f2 = tail_faults f1 in
      let f3 = tail_faults f2 in
      elim (Bool-cases (head_fault db.faults)) [
        | inl e ↦ rw e (inr (_, refl, inl refl))
        | inr e ↦ elim (Bool-cases (head_fault f1)) [
          | inl a ↦ elim (Bool-cases (head_fault f2)) [
            | inl x ↦ rw (e, a, x) (inr (_, refl, inl refl))
            | inr x ↦ rw (e, a, x) (inr (_, refl, inr refl))
          ]
          | inr a ↦ elim (Bool-cases (runs (strip_table_create m.up_sql) db.tables)) [
            | inr k ↦ elim (Bool-cases (head_fault f2)) [
              | inl x ↦ rw (e, a, k, x) (inr (_, refl, inl refl))
              | inr x ↦ rw (e, a, k, x) (inr (_, refl, inr refl))
            ]
            | inl k ↦ elim (Bool-cases (head_fault f2)) [
              | inl x ↦ rw (e, a, k, x) (inr (_, refl, inl refl))
              | inr x ↦ elim (Bool-cases (has_mark (is_at m.version) db.tables.marks)) [
                | inl y ↦ rw (e, a, k, x, y) (inr (_, refl, inl refl))
                | inr y ↦ elim (Bool-cases (head_fault f3)) [
                  | inl z ↦ rw (e, a, k, x, y, z) (inr (_, refl, inl refl))
                  | inr z ↦ rw (e, a, k, x, y, z) (inl (refl, refl, refl))
                ]
              ]
            ]
          ]
        ]
      ]

-- The migrations that the rows do not name as applied.
unfoldable pub pending : List Mark → List Migration → List Migration
pending applied [] = []
pending applied (m ∷ ms) =
    let rest = pending applied ms in if is_applied m.version applied then rest else m ∷ rest

-- The rows once the migrations of a list were applied, one after the other.
abbrev pub clean_marks : List Migration → List Mark → List Mark
clean_marks [] marks = marks
clean_marks (m ∷ ms) marks = clean_marks ms (record { version = m.version; dirty = false } ∷ marks)

-- The texts are what is left of the migrations once the table is taken out of them.
abbrev pub AreStripped : List Migration → List Bytes → Type 0
AreStripped [] out = out ≡ []
AreStripped (m ∷ ms) [] = m ∷ ms ≡ []
AreStripped (m ∷ ms) (sql ∷ out) = IsStripped m.up_sql sql × AreStripped ms out

-- Of the migrations that are to be applied, those up to one ran and have clean rows; that is all of them,
-- or the run fails at the next one, which has at most a dirty row.
abbrev pub IsRun : List Migration → Schema → Result (Unit {0}) × Db → Type 0
IsRun todo before done =
    (k : List Migration) × (rest : List Migration) × (out : List Bytes) × (todo ≡ k ++ rest)
    × AreStripped k out
    × (done.1.tables.ran ≡ before.ran ++ out)
    × (((done.0 ≡ ok tt) × (rest ≡ []) × (done.1.tables.marks ≡ clean_marks k before.marks))
        ⊎ ((e : Error) × (done.0 ≡ err e)
            × ((done.1.tables.marks ≡ clean_marks k before.marks)
                ⊎ ((m : Migration) × (l : List Migration) × (rest ≡ m ∷ l)
                    × (done.1.tables.marks ≡ set_dirty m.version (clean_marks k before.marks))))))

IsRun-step :
    (m : Migration) (todo : List Migration) (before : Schema) (done : Result (Unit {0}) × Db)
    → IsRun todo (applied_to m before) done
    → IsRun (m ∷ todo) before done
IsRun-step m todo before done (k, rest, out, p, s, r, x) = (
  m ∷ k,
  rest,
  strip_table_create m.up_sql ∷ out,
  ap (λ (l : List Migration). m ∷ l) p,
  (strip_table_create-IsStripped m.up_sql, s),
  r ∙ append_assoc before.ran (strip_table_create m.up_sql ∷ []) out,
  x,
)

left_behind :
    (m : Migration) (l : List Migration) (before done : Schema)
    → (done ≡ before) ⊎ (done ≡ marked_dirty m before)
    → (done.ran ≡ before.ran)
      × ((done.marks ≡ before.marks)
          ⊎ ((n : Migration) × (l' : List Migration) × (m ∷ l ≡ n ∷ l')
              × (done.marks ≡ set_dirty n.version before.marks)))
left_behind m l before done (inl t) =
    (ap (λ (s : Schema). s.ran) t, inl (ap (λ (s : Schema). s.marks) t))
left_behind m l before done (inr t) =
    (ap (λ (s : Schema). s.ran) t, inr (m, l, refl, ap (λ (s : Schema). s.marks) t))

module _ (runs : Bytes → Schema → Bool) where
  -- A run over the list applies the pending migrations from the first one on, in their order.
  pub apply_all-IsRun :
      (applied : List Mark) (ms : List Migration) (db : Db)
      → IsRun (pending applied ms) db.tables (apply_all runs applied ms db)
  unfolding apply_all pending
  apply_all-IsRun applied [] db =
      ([], [], [], refl, refl, sym (append-nil db.tables.ran), inl (refl, refl, refl))
  apply_all-IsRun applied (m ∷ ms) db = elim (Bool-cases (is_applied m.version applied)) [
    | inl e ↦ rw (apply_all, e) (apply_all-IsRun applied ms db)
    | inr e ↦ elim (apply_one-cases runs m db) [
      | inl (o, n, t) ↦
          let db1 = (apply_one runs m db).1 in
          let later = apply_all-IsRun applied ms db1 in
          rw (apply_all, e, o)
            (IsRun-step m (pending applied ms) db.tables (apply_all runs applied ms db1) (
              subst (λ (x : Schema). IsRun (pending applied ms) x (apply_all runs applied ms db1)) t
                later))
      | inr (x, o, left_) ↦
          let kept =
            left_behind m (pending applied ms) db.tables (apply_one runs m db).1.tables left_ in
          rw (apply_all, e, o)
            (
              [],
              m ∷ pending applied ms,
              [],
              refl,
              refl,
              kept.0 ∙ sym (append-nil db.tables.ran),
              inr (x, refl, kept.1),
            )
    ]
  ]
