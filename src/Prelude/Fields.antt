-- ===== src/Prelude/Fields.antt =====
-- strings.Split at one byte, strings.Contains, and the parts of a path.
use mathlib.Core.Path.{◌≡◌, refl}
use mathlib.Core.Logic.{◌≢◌, inl, inr}
use mathlib.Core.Bool.{Bool, true, not, ◌&&◌}
use mathlib.Core.List.{List, [], ◌∷◌, ◌++◌}
use native.Mathlib.Omega.{arith}
use Prim.Native.Nat.{ℕ}
use packrune.Prelude.Tests.{leb, nat_eq, nat_eq_iff, if◌then◌else◌, Bool-cases, Option-cases}
use packrune.Prelude.Text.{Bytes, codes, is_some, strip_prefix?}
use mathlib.Core.Option.{some}
use packrune.Prelude.Cut.{cut}

abbrev pub onto_first : ℕ → List Bytes → List Bytes
onto_first c [] = (c ∷ []) ∷ []
onto_first c (f ∷ fs) = (c ∷ f) ∷ fs

-- strings.Split(s, sep) for a separator of one byte
unfoldable pub split : Bytes → ℕ → List Bytes
split [] sep = [] ∷ []
split (c ∷ s) sep = let rest = split s sep in if nat_eq c sep then [] ∷ rest else onto_first c rest

-- strings.Contains
unfoldable pub contains : Bytes → Bytes → Bool
contains s t = is_some (cut s t)

abbrev pub in_range : ℕ → ℕ → ℕ → Bool
in_range lo hi c = leb lo c && leb c hi

-- A test of every byte of a text.
unfoldable pub all : (ℕ → Bool) → Bytes → Bool
all p [] = true
all p (c ∷ s) = p c && all p s

abbrev pub All {ℓ κ} : {A : Type ℓ} → (A → Type κ) → List A → Type κ
All P [] = Unit
All P (x ∷ xs) = P x × All P xs

-- A field without separators is split off whole.
pub split-append :
    (s rest : Bytes) (sep : ℕ)
    → All (λ c. c ≢ sep) s
    → split (s ++ sep ∷ rest) sep ≡ s ∷ split rest sep
unfolding split
split-append [] rest sep h = ground (arith, nat_eq_iff sep sep)
split-append (c ∷ s) rest sep (hc, hs) =
    ground (arith, split-append s rest sep hs, nat_eq_iff c sep)

pub split_last : (s : Bytes) (sep : ℕ) → All (λ c. c ≢ sep) s → split s sep ≡ s ∷ []
unfolding split
split_last [] sep h = refl
split_last (c ∷ s) sep (hc, hs) = ground (arith, split_last s sep hs, nat_eq_iff c sep)

pub All-append {ℓ κ} :
    {A : Type ℓ} (P : A → Type κ) (xs ys : List A) → All P xs → All P ys → All P (xs ++ ys)
All-append P [] ys hx hy = hy
All-append P (x ∷ xs) ys hx hy = (hx.0, All-append P xs ys hx.1 hy)

-- A test that finds no separator.
pub lacks-All :
    (sep : ℕ) (s : Bytes) → all (λ c. not (nat_eq c sep)) s ≡ true → All (λ c. c ≢ sep) s
unfolding all
lacks-All sep [] h = tt
lacks-All sep (c ∷ s) h = (λ e. ground (arith, e, nat_eq_iff c sep), lacks-All sep s (ground arith))

-- A text without slashes.
abbrev pub IsField : Bytes → Type 0
IsField v = All (λ c. c ≢ b'/') v

pub cut_field : (v f : Bytes) → IsField v → cut (v ++ b'/' ∷ f) (codes "/") ≡ some (v, f)
unfolding cut strip_prefix?
cut_field [] f h = ground (arith, nat_eq_iff b'/' b'/')
cut_field (c ∷ v) f (hc, hv) = ground (arith, cut_field v f hv, nat_eq_iff c b'/')

pub cut-IsField : (s v f : Bytes) → cut s (codes "/") ≡ some (v, f) → IsField v
unfolding cut strip_prefix?
cut-IsField [] v f h = cc
cut-IsField (c ∷ s) v f h = elim (Bool-cases (nat_eq c b'/')) [
  | inl e ↦ let empty : v ≡ [] = ground (arith, e, h) in rw empty tt
  | inr e ↦ elim (Option-cases (cut s (codes "/"))) [
    | inl k ↦ absurd (ground (arith, e, h, k))
    | inr ((x, y), k) ↦
        let whole : v ≡ c ∷ x = ground (arith, e, h, k) in
        rw whole ((λ q. ground (arith, e, q, nat_eq_iff c b'/')), cut-IsField s x y k)
  ]
]
