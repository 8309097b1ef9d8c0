-- ===== src/Numbers.antt =====
-- The integers of Go, and strconv.ParseInt in base ten.
use packrune.Prelude.{
  ℕ, zero, suc, ◌+◌, ◌-◌, ◌*◌, ◌^◌, Bool, true, false, Option, none, some, [], ◌∷◌, Bytes, ltb, leb,
  nat_eq, in_range, ◌≡◌, arith, ap, all, if◌then◌else◌,
}
use packrune.Action.{io, Result, ok, err}

-- A signed integer; `negsuc n` is -1 - n.
pub data ℤ : Type 0 where
  pos : ℕ → ℤ
  negsuc : ℕ → ℤ

abbrev pub int_less : ℤ → ℤ → Bool
int_less (pos m) (pos n) = ltb m n
int_less (pos m) (negsuc n) = false
int_less (negsuc m) (pos n) = true
int_less (negsuc m) (negsuc n) = ltb n m

abbrev pub int_eq : ℤ → ℤ → Bool
int_eq (pos m) (pos n) = nat_eq m n
int_eq (pos m) (negsuc n) = false
int_eq (negsuc m) (pos n) = false
int_eq (negsuc m) (negsuc n) = nat_eq m n

pub eq_of_int_eq : (i j : ℤ) → int_eq i j ≡ true → i ≡ j
eq_of_int_eq (pos m) (pos n) h = ap (λ (x : ℕ). pos x) (ground (arith, h))
eq_of_int_eq (pos m) (negsuc n) h = cc
eq_of_int_eq (negsuc m) (pos n) h = cc
eq_of_int_eq (negsuc m) (negsuc n) h = ap (λ (x : ℕ). negsuc x) (ground (arith, h))

pub int_eq_refl : (i : ℤ) → int_eq i i ≡ true
int_eq_refl (pos n) = ground arith
int_eq_refl (negsuc n) = ground arith

abbrev is_digit : ℕ → Bool
is_digit c = in_range b'0' b'9' c

unfoldable pub digits_onto : ℕ → Bytes → ℕ
digits_onto acc [] = acc
digits_onto acc (c ∷ s) = digits_onto (acc * 10 + (c - b'0')) s

-- The digits of a number, of which there is at least one.
abbrev magnitude : Bytes → Option ℕ
magnitude [] = none
magnitude (c ∷ s) = if all is_digit (c ∷ s) then some (digits_onto 0 (c ∷ s)) else none

abbrev signed : Bool → Option ℕ → Result ℤ
signed negative none = err io
signed negative (some zero) = ok (pos 0)
signed negative (some (suc n)) =
    if negative
    then (if leb (suc n) (2 ^ 63) then ok (negsuc n) else err io)
    else (if ltb (suc n) (2 ^ 63) then ok (pos (suc n)) else err io)

-- strconv.ParseInt(s, 10, 64)
unfoldable pub parse_int : Bytes → Result ℤ
parse_int [] = err io
parse_int (c ∷ s) =
    if nat_eq c b'+'
    then signed false (magnitude s)
    else if nat_eq c b'-'
    then signed true (magnitude s)
    else signed false (magnitude (c ∷ s))
