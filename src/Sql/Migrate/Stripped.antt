-- ===== src/Sql/Migrate/Stripped.antt =====
-- internal/db/migrate.go: what stripMigrationsTableCreate takes out of a text.
use packrune.Prelude.{
  ℕ, ◌≤◌, ◌≡◌, ◌⊎◌, inl, inr, refl, sym, ap, ◌∙◌, Bool, true, false, none, some, [], ◌∷◌, ◌++◌,
  arith, Bytes, codes, length, has_prefix, lower_ascii, cut, Bool-cases, Option-cases,
  strip_prefix?,
}
use packrune.Sql.Migrate.{after_semicolon, strip_table_create}

-- The statement that creates the table of the migrations begins here.
abbrev pub creates : Bytes → Bool
creates t = has_prefix (lower_ascii t) (codes "create table schema_migrations")

-- The first statement that creates the table, with its semicolon, is taken out; a text that has none, or
-- none that a semicolon ends, stays whole.
abbrev pub IsStripped : Bytes → Bytes → Type 0
IsStripped sql out =
    ((out ≡ sql) × ((b t : Bytes) → sql ≡ b ++ t → creates t ≡ true → cut t (codes ";") ≡ none))
    ⊎ ((before : Bytes) × (t : Bytes) × (statement : Bytes) × (rest : Bytes) × (sql ≡ before ++ t)
        × (creates t ≡ true)
        × (cut t (codes ";") ≡ some (statement, rest))
        × ((b u : Bytes) → sql ≡ b ++ u → creates u ≡ true → length before ≤ length b)
        × (out ≡ before ++ rest))

no_creates : (b t : Bytes) → [] ≡ b ++ t → creates t ≡ false
no_creates [] [] e = (unfold has_prefix lower_ascii strip_prefix? in refl)
no_creates [] (c ∷ t) e = absurd (cc)
no_creates (c ∷ b) t e = absurd (cc)

cut-suffix : (b t : Bytes) → cut (b ++ t) (codes ";") ≡ none → cut t (codes ";") ≡ none
unfolding cut
cut-suffix [] t h = h
cut-suffix (c ∷ b) t h = cut-suffix b t (ground (arith, h))

after_whole : (t : Bytes) → cut t (codes ";") ≡ none → after_semicolon t ≡ t
after_whole t k = rw (after_semicolon, k) refl

after_cut :
    (t statement rest : Bytes)
    → cut t (codes ";") ≡ some (statement, rest)
    → after_semicolon t ≡ rest
after_cut t statement rest k = rw (after_semicolon, k) refl

-- Where the statement begins behind the first character.
module _ (c : ℕ) (s : Bytes) (elsewhere : creates (c ∷ s) ≡ false) where
  ends_nowhere :
      ((b t : Bytes) → s ≡ b ++ t → creates t ≡ true → cut t (codes ";") ≡ none)
      → (b t : Bytes) → c ∷ s ≡ b ++ t
      → creates t ≡ true
      → cut t (codes ";") ≡ none
  ends_nowhere h [] t e k = absurd (ground (arith, elsewhere, k, ap creates e))
  ends_nowhere h (d ∷ b) t e k = h b t (cc) k

  begins_later :
      (before : Bytes)
      → ((b u : Bytes) → s ≡ b ++ u → creates u ≡ true → length before ≤ length b)
      → (b u : Bytes) → c ∷ s ≡ b ++ u
      → creates u ≡ true
      → length (c ∷ before) ≤ length b
  begins_later before h [] u e k = absurd (ground (arith, elsewhere, k, ap creates e))
  begins_later before h (d ∷ b) u e k = omega (arith, h b u (cc) k)

pub strip_table_create-IsStripped : (sql : Bytes) → IsStripped sql (strip_table_create sql)
unfolding strip_table_create
strip_table_create-IsStripped [] =
    inl (refl, (λ b t e k. absurd (ground (arith, no_creates b t e, k))))
strip_table_create-IsStripped (c ∷ s) = elim (Bool-cases (creates (c ∷ s))) [
  | inl h ↦ elim (Option-cases (cut (c ∷ s) (codes ";"))) [
    | inl k ↦ rw h (
        inl (
          after_whole (c ∷ s) k,
          (λ b t e x. cut-suffix b t (ap (λ (y : Bytes). cut y (codes ";")) (sym e) ∙ k)),
        ))
    | inr ((statement, rest), k) ↦ rw h (
        inr (
          [],
          c ∷ s,
          statement,
          rest,
          refl,
          h,
          k,
          (λ b u e x. omega arith),
          after_cut (c ∷ s) statement rest k,
        ))
  ]
  | inr h ↦ rw h (elim (strip_table_create-IsStripped s) [
    | inl (same, none_) ↦ inl (ap (λ (y : Bytes). c ∷ y) same, ends_nowhere c s h none_)
    | inr (before, t, statement, rest, at_, first, ends, least, out) ↦ inr (
      c ∷ before,
      t,
      statement,
      rest,
      ap (λ (y : Bytes). c ∷ y) at_,
      first,
      ends,
      begins_later c s h before least,
      ap (λ (y : Bytes). c ∷ y) out,
    )
  ])
]
