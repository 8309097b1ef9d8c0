-- ===== src/Prelude/Sorted.antt =====
-- The order of Go strings is total and transitive, and what sort.Strings makes of texts that differ.
use mathlib.Core.Path.{◌≡◌, refl}
use mathlib.Core.Bool.{Bool, true, false, not, ◌&&◌, ◌||◌}
use mathlib.Core.List.{List, [], ◌∷◌}
use native.Mathlib.Omega.{arith}
use packrune.Prelude.Text.{Bytes, ◌==◌, eq_iff}
use packrune.Prelude.Order.{less, insert_by, sort_by, sort_strings}

pub less_total : (s t : Bytes) → less s t ≡ false → less t s ≡ false → s ≡ t
unfolding less
less_total [] [] h k = refl
less_total [] (b ∷ t) h k = cc
less_total (a ∷ s) [] h k = cc
less_total (a ∷ s) (b ∷ t) h k = ground (arith, less_total s t)

pub less_trans : (s t u : Bytes) → less s t ≡ true → less t u ≡ true → less s u ≡ true
unfolding less
less_trans s t [] h k = cc
less_trans s [] (c ∷ u) h k = cc
less_trans [] (b ∷ t) (c ∷ u) h k = refl
less_trans (a ∷ s) (b ∷ t) (c ∷ u) h k = ground (arith, less_trans s t u)

-- seen[path]: whether a text is in a list.
unfoldable pub is_seen : Bytes → List Bytes → Bool
is_seen v [] = false
is_seen v (x ∷ xs) = x == v || is_seen v xs

unfoldable pub distinct : List Bytes → Bool
distinct [] = true
distinct (x ∷ xs) = not (is_seen x xs) && distinct xs

-- Each text comes before the next one.
unfoldable pub ascending : List Bytes → Bool
ascending [] = true
ascending (x ∷ []) = true
ascending (x ∷ y ∷ xs) = less x y && ascending (y ∷ xs)

is_seen-insert :
    (v x : Bytes) (ys : List Bytes) → is_seen v (insert_by less x ys) ≡ (x == v || is_seen v ys)
unfolding is_seen
is_seen-insert v x [] = refl
is_seen-insert v x (y ∷ ys) = ground (arith, is_seen-insert v x ys)

pub is_seen-sort : (v : Bytes) (xs : List Bytes) → is_seen v (sort_strings xs) ≡ is_seen v xs
unfolding sort_by is_seen
is_seen-sort v [] = refl
is_seen-sort v (x ∷ xs) = ground (arith, is_seen-insert v x (sort_strings xs), is_seen-sort v xs)

ascending-insert :
    (x : Bytes) (ys : List Bytes)
    → is_seen x ys ≡ false
    → ascending ys ≡ true
    → ascending (insert_by less x ys) ≡ true
unfolding ascending is_seen
ascending-insert x [] n h = refl
ascending-insert x (y ∷ []) n h = ground (arith, less_total y x, eq_iff y x)
ascending-insert x (y ∷ z ∷ ys) n h =
    ground
      (arith, ascending-insert x (z ∷ ys), less_total y x, eq_iff y x, less_total z x, eq_iff z x)

-- Texts that differ are sorted strictly.
pub ascending-sort : (xs : List Bytes) → distinct xs ≡ true → ascending (sort_strings xs) ≡ true
unfolding sort_by distinct ascending
ascending-sort [] h = refl
ascending-sort (x ∷ xs) h =
    ground (arith, ascending-insert x (sort_strings xs), ascending-sort xs, is_seen-sort x xs)
