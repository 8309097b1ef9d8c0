-- ===== src/Prelude/Order.antt =====
-- The order of Go strings, sort.Strings, and the search of sort.SearchStrings.
use mathlib.Core.Bool.{Bool, true, false, ◌&&◌, ◌||◌}
use mathlib.Core.List.{List, [], ◌∷◌}
use packrune.Prelude.Tests.{nat_eq, ltb, if◌then◌else◌, Bool-cases}
use Prim.Native.Nat.{ℕ, suc}
use mathlib.Core.Path.{◌≡◌, refl}
use mathlib.Core.Logic.{inl, inr}
use native.Mathlib.Omega.{arith}
use packrune.Prelude.Text.{Bytes}
use packrune.Prelude.Fields.{All}

-- s < t
unfoldable pub less : Bytes → Bytes → Bool
less s [] = false
less [] (b ∷ t) = true
less (a ∷ s) (b ∷ t) = ltb a b || (nat_eq a b && less s t)

abbrev pub insert_by {ℓ} : {A : Type ℓ} → (A → A → Bool) → A → List A → List A
insert_by before x [] = x ∷ []
insert_by before x (y ∷ ys) =
    let later = y ∷ insert_by before x ys in if before y x then later else x ∷ y ∷ ys

-- sort.Slice, for an order whose ties are equal or need no order
unfoldable pub sort_by {ℓ} : {A : Type ℓ} → (A → A → Bool) → List A → List A
sort_by before [] = []
sort_by before (x ∷ xs) = insert_by before x (sort_by before xs)

-- sort.Strings
abbrev pub sort_strings : List Bytes → List Bytes
sort_strings = sort_by less

-- keys[i:] for i := sort.SearchStrings(keys, token), of sorted keys
unfoldable pub search_from : Bytes → List Bytes → List Bytes
search_from token [] = []
search_from token (k ∷ ks) =
    let rest = search_from token ks in if less k token then rest else k ∷ ks

module _ {ℓ κ} {A : Type ℓ} (P : A → Type κ) (before : A → A → Bool) where
  insert_by-All : (x : A) (xs : List A) → P x → All P xs → All P (insert_by before x xs)
  insert_by-All x [] h hs = (h, tt)
  insert_by-All x (y ∷ ys) h (hy, hs) = elim (Bool-cases (before y x)) [
    | inl e ↦ rw e (hy, insert_by-All x ys h hs)
    | inr e ↦ rw e (h, (hy, hs))
  ]

  pub sort_by-All : (xs : List A) → All P xs → All P (sort_by before xs)
  unfolding sort_by
  sort_by-All [] h = tt
  sort_by-All (x ∷ xs) (h, hs) = insert_by-All x (sort_by before xs) h (sort_by-All xs hs)

abbrev pub count_by {ℓ} : {A : Type ℓ} → (A → Bool) → List A → ℕ
count_by p [] = 0
count_by p (x ∷ xs) = let rest = count_by p xs in if p x then suc rest else rest

module _ {ℓ} {A : Type ℓ} (p : A → Bool) (before : A → A → Bool) where
  count-insert_by : (x : A) (xs : List A) → count_by p (insert_by before x xs) ≡ count_by p (x ∷ xs)
  count-insert_by x [] = refl
  count-insert_by x (y ∷ ys) = ground (arith, count-insert_by x ys)

  -- Sorting keeps how often a thing occurs.
  pub count-sort_by : (xs : List A) → count_by p (sort_by before xs) ≡ count_by p xs
  unfolding sort_by
  count-sort_by [] = refl
  count-sort_by (x ∷ xs) = ground (arith, count-insert_by x (sort_by before xs), count-sort_by xs)
