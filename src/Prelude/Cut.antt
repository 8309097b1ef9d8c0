-- ===== src/Prelude/Cut.antt =====
-- Suffixes and cuts: strings.HasSuffix, TrimSuffix, Index and LastIndex with the slices taken there.
use Prim.Native.Nat.{ℕ, ◌≤◌}
use mathlib.Core.Path.{◌≡◌, ap}
use mathlib.Core.Logic.{inl, inr}
use mathlib.Core.Bool.{Bool}
use mathlib.Core.Option.{Option, none, some}
use mathlib.Core.List.{[], ◌∷◌, ◌++◌}
use native.Mathlib.Omega.{arith}
use packrune.Prelude.Tests.{if◌then◌else◌, Option-cases}
use packrune.Prelude.Text.{
  Bytes, length, length-append, ◌==◌, eq_iff, is_some, or_else, strip_prefix?, eq_of_strip_prefix?,
}

abbrev prepend : ℕ → Option Bytes → Option Bytes
prepend c none = none
prepend c (some s) = some (c ∷ s)

-- What stands before a suffix.
unfoldable pub strip_suffix? : Bytes → Bytes → Option Bytes
strip_suffix? [] t = if [] == t then some [] else none
strip_suffix? (c ∷ s) t = if (c ∷ s) == t then some [] else prepend c (strip_suffix? s t)

-- strings.HasSuffix
unfoldable pub has_suffix : Bytes → Bytes → Bool
has_suffix s t = is_some (strip_suffix? s t)

-- strings.TrimSuffix
unfoldable pub trim_suffix : Bytes → Bytes → Bytes
trim_suffix s t = or_else (strip_suffix? s t) s

pub eq_of_strip_suffix? : (s t r : Bytes) → strip_suffix? s t ≡ some r → s ≡ r ++ t
unfolding strip_suffix?
eq_of_strip_suffix? [] t r h = ground (arith, eq_iff [] t)
eq_of_strip_suffix? (c ∷ s) t r h = elim (Option-cases (strip_suffix? s t)) [
  | inl e ↦ ground (arith, eq_iff (c ∷ s) t)
  | inr (q, e) ↦ ground (arith, eq_iff (c ∷ s) t, eq_of_strip_suffix? s t q e)
]

abbrev pub Split : Type 0
Split = Bytes × Bytes

abbrev prepend_left : ℕ → Option Split → Option Split
prepend_left c none = none
prepend_left c (some (b, a)) = some (c ∷ b, a)

abbrev at_front : Option Bytes → Option Split → Option Split
at_front (some r) later = some ([], r)
at_front none later = later

-- With i := strings.Index(s, t): s[:i] and s[i+len(t):], or none where i < 0.
unfoldable pub cut : Bytes → Bytes → Option Split
cut [] t = at_front (strip_prefix? [] t) none
cut (c ∷ s) t = at_front (strip_prefix? (c ∷ s) t) (prepend_left c (cut s t))

abbrev if_none : Option Split → Option Split → Option Split
if_none none o = o
if_none (some x) o = some x

-- With i := strings.LastIndex(s, t): s[:i] and s[i+len(t):], or none where i < 0.
unfoldable pub cut_last : Bytes → Bytes → Option Split
cut_last [] t = at_front (strip_prefix? [] t) none
cut_last (c ∷ s) t =
    if_none (prepend_left c (cut_last s t)) (at_front (strip_prefix? (c ∷ s) t) none)

pub eq_of_cut : (s t b a : Bytes) → cut s t ≡ some (b, a) → s ≡ b ++ (t ++ a)
unfolding cut
eq_of_cut [] t b a h = ground (arith, eq_of_strip_prefix? [] t a)
eq_of_cut (c ∷ s) t b a h = elim (Option-cases (strip_prefix? (c ∷ s) t)) [
  | inr (r, e) ↦ ground (arith, eq_of_strip_prefix? (c ∷ s) t r e)
  | inl e ↦ elim (Option-cases (cut s t)) [
    | inl f ↦ ground arith
    | inr ((x, y), f) ↦ ground (arith, eq_of_cut s t x y f)
  ]
]

-- The first occurrence of `t` in a text stays the first when the text goes on.
strip_prefix?_mono :
    (s t q : Bytes)
    → strip_prefix? s t ≡ none
    → length t ≤ length s
    → strip_prefix? (s ++ q) t ≡ none
unfolding strip_prefix?
strip_prefix?_mono s [] q h l = cc
strip_prefix?_mono [] (b ∷ t) q h l = absurd (omega arith)
strip_prefix?_mono (a ∷ s) (b ∷ t) q h l = ground (arith, strip_prefix?_mono s t q)

strip_prefix?-append_some :
    (s t q r : Bytes) → strip_prefix? s t ≡ some r → strip_prefix? (s ++ q) t ≡ some (r ++ q)
unfolding strip_prefix?
strip_prefix?-append_some s [] q r h = ground arith
strip_prefix?-append_some [] (b ∷ t) q r h = cc
strip_prefix?-append_some (a ∷ s) (b ∷ t) q r h = ground (arith, strip_prefix?-append_some s t q r)

length-cut : (s t b a : Bytes) → cut s t ≡ some (b, a) → length t ≤ length s
length-cut s t b a h = omega (
  arith,
  ap (λ (x : Bytes). length x) (eq_of_cut s t b a h),
  length-append b (t ++ a),
  length-append t a,
)

pub cut-append : (s t q b a : Bytes) → cut s t ≡ some (b, a) → cut (s ++ q) t ≡ some (b, a ++ q)
unfolding cut strip_prefix?
cut-append [] [] [] b a h = ground arith
cut-append [] [] (x ∷ q) b a h = ground arith
cut-append [] (y ∷ t) q b a h = cc
cut-append (c ∷ s) t q b a h = elim (Option-cases (strip_prefix? (c ∷ s) t)) [
  | inr (r, e) ↦ ground (arith, strip_prefix?-append_some (c ∷ s) t q r e)
  | inl e ↦ elim (Option-cases (cut s t)) [
    | inl f ↦ ground arith
    | inr ((x, y), f) ↦
        ground
          (arith, cut-append s t q x y f, length-cut s t x y f, strip_prefix?_mono (c ∷ s) t q e)
  ]
]

pub eq_of_cut_last : (s t b a : Bytes) → cut_last s t ≡ some (b, a) → s ≡ b ++ (t ++ a)
unfolding cut_last
eq_of_cut_last [] t b a h = ground (arith, eq_of_strip_prefix? [] t a)
eq_of_cut_last (c ∷ s) t b a h = elim (Option-cases (cut_last s t)) [
  | inr ((x, y), f) ↦ ground (arith, eq_of_cut_last s t x y f)
  | inl f ↦ elim (Option-cases (strip_prefix? (c ∷ s) t)) [
    | inl e ↦ ground arith
    | inr (r, e) ↦ ground (arith, eq_of_strip_prefix? (c ∷ s) t r e)
  ]
]
