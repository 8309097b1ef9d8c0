-- ===== src/Prelude/Text.antt =====
-- Go strings as lists of bytes, with the functions of package `strings` that the source calls.
use Prim.Native.Nat.{ℕ, suc, ◌+◌}
use Prim.Native.Char.{code}
use Prim.Native.String.{String}
use mathlib.Core.Path.{◌≡◌, refl}
use mathlib.Core.Logic.{◌↔◌}
use mathlib.Core.Bool.{Bool, true, false, ◌&&◌}
use mathlib.Core.Option.{Option, none, some}
use mathlib.Core.List.{List, [], ◌∷◌, ◌++◌}
use native.Mathlib.Omega.{arith}
use packrune.Prelude.Tests.{nat_eq, nat_eq_iff, if◌then◌else◌}

abbrev pub Bytes : Type 0
Bytes = List ℕ

-- The bytes of an ASCII literal.
abbrev pub codes : String → Bytes
codes String.[] = []
codes (String.◌∷◌ c s) = code c ∷ codes s

module _ {ℓ} {A : Type ℓ} where
  -- len(s)
  abbrev pub length : List A → ℕ
  length [] = 0
  length (x ∷ xs) = suc (length xs)

  pub length-append : (xs ys : List A) → length (xs ++ ys) ≡ length xs + length ys
  length-append [] ys = omega arith
  length-append (x ∷ xs) ys = omega (arith, length-append xs ys)

infix 50 ◌==◌
unfoldable pub ◌==◌ : Bytes → Bytes → Bool
[] == [] = true
[] == (b ∷ t) = false
(a ∷ s) == [] = false
(a ∷ s) == (b ∷ t) = nat_eq a b && (s == t)

pub eq_of_== : (s t : Bytes) → (s == t) ≡ true → s ≡ t
unfolding ◌==◌
eq_of_== [] [] h = refl
eq_of_== [] (b ∷ t) h = cc
eq_of_== (a ∷ s) [] h = cc
eq_of_== (a ∷ s) (b ∷ t) h = ground (arith, eq_of_== s t, nat_eq_iff a b)

pub ==_refl : (s : Bytes) → (s == s) ≡ true
unfolding ◌==◌
==_refl [] = refl
==_refl (a ∷ s) = ground (arith, ==_refl s, nat_eq_iff a a)

pub eq_iff : (s t : Bytes) → ((s == t) ≡ true) ↔ (s ≡ t)
eq_iff s t = (eq_of_== s t, λ e. rw e (==_refl t))

-- What is left of a text behind a prefix.
unfoldable pub strip_prefix? : Bytes → Bytes → Option Bytes
strip_prefix? s [] = some s
strip_prefix? [] (b ∷ t) = none
strip_prefix? (a ∷ s) (b ∷ t) = if nat_eq a b then strip_prefix? s t else none

abbrev pub is_some {ℓ} : {A : Type ℓ} → Option A → Bool
is_some none = false
is_some (some a) = true

abbrev pub or_else {ℓ} : {A : Type ℓ} → Option A → A → A
or_else none d = d
or_else (some a) d = a

-- strings.HasPrefix
unfoldable pub has_prefix : Bytes → Bytes → Bool
has_prefix s t = is_some (strip_prefix? s t)

-- strings.TrimPrefix
unfoldable pub trim_prefix : Bytes → Bytes → Bytes
trim_prefix s t = or_else (strip_prefix? s t) s

pub strip_prefix?-append : (t s : Bytes) → strip_prefix? (t ++ s) t ≡ some s
unfolding strip_prefix?
strip_prefix?-append [] s = refl
strip_prefix?-append (b ∷ t) s = ground (arith, strip_prefix?-append t s, nat_eq_iff b b)

pub eq_of_strip_prefix? : (s t r : Bytes) → strip_prefix? s t ≡ some r → s ≡ t ++ r
unfolding strip_prefix?
eq_of_strip_prefix? s [] r h = ground arith
eq_of_strip_prefix? [] (b ∷ t) r h = cc
eq_of_strip_prefix? (a ∷ s) (b ∷ t) r h = ground (arith, eq_of_strip_prefix? s t r, nat_eq_iff a b)

pub ==_append : (x s t : Bytes) → (x ++ s == x ++ t) ≡ (s == t)
unfolding ◌==◌
==_append [] s t = refl
==_append (a ∷ x) s t = ground (arith, ==_append x s t, nat_eq_iff a a)
