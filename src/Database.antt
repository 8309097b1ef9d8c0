-- ===== src/Database.antt =====
-- The calls of database/sql on the tables of a component, each of which may fail.
use packrune.Prelude.{Bool, false, List, [], ◌∷◌, if◌then◌else◌, ◌≡◌, inl, inr, Bool-cases}
use packrune.Action.{io, Result, ok, err, Action, Result-cases}

-- `faults` says which of the next statements fail; with no entry left every statement succeeds.
pub record Database (T : Type 0) : Type 0 where
  pub tables : T
  pub faults : List Bool

abbrev pub head_fault : List Bool → Bool
head_fault [] = false
head_fault (f ∷ fs) = f

abbrev pub tail_faults : List Bool → List Bool
tail_faults [] = []
tail_faults (f ∷ fs) = fs

module _ {T A : Type 0} where
  -- A statement that only reads.
  abbrev pub query : (T → Result A) → Action (Database T) A
  query f db =
      let db' = record db { faults = tail_faults db.faults } in
      if head_fault db.faults then (err io, db') else (f db.tables, db')

module _ {T : Type 0} where
  -- A statement that changes the tables, or breaks a constraint and changes nothing.
  abbrev pub change : (T → Result T) → Action (Database T) (Unit {0})
  change f db =
      let db' = record db { faults = tail_faults db.faults } in
      if head_fault db.faults
      then (err io, db')
      else elim (f db.tables) [ ok t ↦ (ok tt, record db' { tables = t }) | err e ↦ (err e, db') ]

  -- What holds of the tables holds after a statement, if it holds of what the statement makes.
  pub change-Keeps {κ} :
      (P : T → Type κ) (f : T → Result T) (db : Database T)
      → P db.tables
      → ((t : T) → f db.tables ≡ ok t → P t)
      → P (change f db).1.tables
  change-Keeps P f db h k = elim (Bool-cases (head_fault db.faults)) [
    | inl e ↦ rw e h
    | inr e ↦ elim (Result-cases (f db.tables)) [
      | inl (t, made) ↦ rw (e, made) (k t made)
      | inr (x, refused) ↦ rw (e, refused) h
    ]
  ]

  pub query-Keeps {κ} :
      {A : Type 0} (P : T → Type κ) (f : T → Result A) (db : Database T)
      → P db.tables
      → P (query f db).1.tables
  query-Keeps P f db h = elim (Bool-cases (head_fault db.faults)) [
    | inl e ↦ rw e h
    | inr e ↦ rw e h
  ]
