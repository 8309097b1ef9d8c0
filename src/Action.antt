-- ===== src/Action.antt =====
-- Go functions that return an error beside their value, and methods that change a state on the way:
-- what was written before an error stays written.
use packrune.Prelude.{◌≡◌, refl, ap, ◌⊎◌, inl, inr, Bool, true, false}

-- The errors that callers tell apart; `io` is every failure of the operating system.
pub data Error : Type 0 where
  not_found invalid_key bad_digest digest_mismatch bad_name bad_kind unauthorized io : Error

pub data Result {ℓ} (A : Type ℓ) : Type ℓ where
  ok : A → Result A
  err : Error → Result A

abbrev pub Action {ℓ} : Type ℓ → Type ℓ → Type ℓ
Action S A = S → Result A × S

module _ {ℓ} {S A : Type ℓ} where
  abbrev pub pure : A → Action S A
  pure a s = (ok a, s)

  abbrev pub raise : Error → Action S A
  raise e s = (err e, s)

  -- `x, err := m` where the error is looked at, or thrown away, by what follows.
  abbrev pub attempt : Action S A → Action S (Result A)
  attempt m s = let (r, s') = m s in (ok r, s')

module _ {ℓ} {S A B : Type ℓ} where
  abbrev pub next : Result A × S → (A → Action S B) → Result B × S
  next (ok a, s) f = f a s
  next (err e, s) f = (err e, s)

  infixl 5 ◌>>=◌ ◌>>◌
  abbrev pub ◌>>=◌ : Action S A → (A → Action S B) → Action S B
  ◌>>=◌ m f s = next (m s) f

  abbrev pub ◌>>◌ : Action S A → Action S B → Action S B
  m >> n = m >>= λ _. n

abbrev pub is_ok {ℓ} : {A : Type ℓ} → Result A → Bool
is_ok (ok a) = true
is_ok (err e) = false

abbrev or_value {ℓ} : {A : Type ℓ} → A → Result A → A
or_value d (ok a) = a
or_value d (err e) = d

-- To split on a computed result and keep the equation.
pub Result-cases {ℓ} :
    {A : Type ℓ} (r : Result A) → ((a : A) × (r ≡ ok a)) ⊎ ((e : Error) × (r ≡ err e))
Result-cases (ok a) = inl (a, refl)
Result-cases (err e) = inr (e, refl)

pub ok-injective {ℓ} : {A : Type ℓ} {a b : A} → ok a ≡ ok b → a ≡ b
ok-injective {a = a} h = ap (or_value a) h

-- What the first of two calls brings about and the second keeps holds after both.
pub next-Keeps {ℓ κ} :
    {S A B : Type ℓ} (P : S → Type κ) (r : Result A × S) (f : A → Action S B)
    → P r.1
    → ((a : A) (s : S) → P s → P (f a s).1)
    → P (next r f).1
next-Keeps P (ok a, s) f h k = k a s h
next-Keeps P (err e, s) f h k = h
