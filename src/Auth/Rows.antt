-- ===== src/Auth/Rows.antt =====
-- What the statements of internal/auth leave in the tables, and find there.
use packrune.Prelude.{
  ◌≡◌, inl, inr, refl, sym, Bool, true, false, some, List, [], ◌∷◌, arith, Bytes, ◌==◌, All,
  Option-cases, Bool-cases,
}
use mathlib.Core.List.{Memᴰ}
use mathlib.Core.Path.{subst}
use packrune.Auth.Tables.{UserRow, TokenRow, find_by, delete_by, update_by, has_id}
use packrune.Auth.Service.{Joined, find_joined}

module _ {ℓ κ} {A : Type ℓ} (P : A → Type κ) where
  pub All-of : ((x : A) → P x) → (xs : List A) → All P xs
  All-of h [] = tt
  All-of h (x ∷ xs) = (h x, All-of h xs)

  pub All-of_Mem : (xs : List A) → ((x : A) → Memᴰ x xs → P x) → All P xs
  All-of_Mem [] h = tt
  All-of_Mem (x ∷ xs) h = (h x (Memᴰ.head refl), All-of_Mem xs (λ y m. h y (Memᴰ.tail m)))

  module _ (p : A → Bool) where
    pub find_by-All : (xs : List A) (x : A) → All P xs → find_by p xs ≡ some x → P x × (p x ≡ true)
    unfolding find_by
    find_by-All [] x a h = absurd (ground arith)
    find_by-All (y ∷ ys) x (a, hs) h = elim (Bool-cases (p y)) [
      | inl e ↦
          let same : some y ≡ some x = ground (arith, e) in
          let y_x : y ≡ x = ground (arith, same) in (subst P y_x a, rw (sym y_x) e)
      | inr e ↦ find_by-All ys x hs (ground (arith, e))
    ]

    pub delete_by-All : (xs : List A) → All P xs → All P (delete_by p xs)
    unfolding delete_by
    delete_by-All [] a = tt
    delete_by-All (x ∷ xs) (a, hs) = elim (Bool-cases (p x)) [
      | inl e ↦ rw e (delete_by-All xs hs)
      | inr e ↦ rw e (a, delete_by-All xs hs)
    ]

    -- A row is deleted, or has what is asked of the others.
    pub delete_by-rest : (xs : List A) → ((x : A) → p x ≡ false → P x) → All P (delete_by p xs)
    unfolding delete_by
    delete_by-rest [] h = tt
    delete_by-rest (x ∷ xs) h = elim (Bool-cases (p x)) [
      | inl e ↦ rw e (delete_by-rest xs h)
      | inr e ↦ rw e (h x e, delete_by-rest xs h)
    ]

    pub update_by-All :
        (f : A → A) (xs : List A) → ((x : A) → P x → P (f x)) → All P xs → All P (update_by p f xs)
    unfolding update_by
    update_by-All f [] h a = tt
    update_by-All f (x ∷ xs) h (a, hs) = elim (Bool-cases (p x)) [
      | inl e ↦ rw e (h x a, update_by-All f xs h hs)
      | inr e ↦ rw e (a, update_by-All f xs h hs)
    ]

    pub update_by-made :
        (f : A → A) (xs : List A)
        → ((x : A) → p x ≡ true → P (f x))
        → ((x : A) → p x ≡ false → P x)
        → All P (update_by p f xs)
    unfolding update_by
    update_by-made f [] h k = tt
    update_by-made f (x ∷ xs) h k = elim (Bool-cases (p x)) [
      | inl e ↦ rw e (h x e, update_by-made f xs h k)
      | inr e ↦ rw e (k x e, update_by-made f xs h k)
    ]

module _ {κ μ} (P : TokenRow → Type κ) (Q : UserRow → Type μ) (hash : Bytes) where
  pub find_joined-All :
      (users : List UserRow) (ts : List TokenRow) (j : Joined)
      → All P ts
      → All Q users
      → find_joined hash users ts ≡ some j
      → P j.token
        × Q j.user
        × ((j.token.hash == hash) ≡ true)
        × ((j.user.id == j.token.user_id) ≡ true)
  unfolding find_joined
  find_joined-All users [] j a b h = absurd (ground arith)
  find_joined-All users (t ∷ ts) j (a, hs) b h = elim (Bool-cases (t.hash == hash)) [
    | inr e ↦ find_joined-All users ts j hs b (ground (arith, e))
    | inl e ↦ elim (Option-cases (find_by (has_id t.user_id) users)) [
      | inl missing ↦ find_joined-All users ts j hs b (ground (arith, e, missing))
      | inr (u, found) ↦
          let same : some (record { token = t; user = u }) ≡ some j = ground (arith, e, found) in
          let tj : t ≡ j.token = ground (arith, same) in
          let uj : u ≡ j.user = ground (arith, same) in
          let here = find_by-All Q (has_id t.user_id) users u b found in
          (subst P tj a, subst Q uj here.0, rw (sym tj) e, rw (sym tj, sym uj) here.1)
    ]
  ]

-- Every row is among the rows.
pub All-Mem {ℓ} : {A : Type ℓ} (xs : List A) → All (λ x. Memᴰ x xs) xs
All-Mem xs = All-of_Mem (λ x. Memᴰ x xs) xs (λ x m. m)

pub find_by-update :
    (p : UserRow → Bool) (f : UserRow → UserRow) (us : List UserRow) (u : UserRow)
    → ((x : UserRow) → p (f x) ≡ p x)
    → find_by p us ≡ some u
    → find_by p (update_by p f us) ≡ some (f u)
unfolding find_by update_by
find_by-update p f [] u same h = absurd (ground arith)
find_by-update p f (x ∷ us) u same h = elim (Bool-cases (p x)) [
  | inl e ↦ ground (arith, e, same x)
  | inr e ↦ ground (arith, e, find_by-update p f us u same)
]
