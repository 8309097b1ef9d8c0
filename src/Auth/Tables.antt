-- ===== src/Auth/Tables.antt =====
-- The tables `users` and `tokens` of migrations/0001_initial.up.sql and the statements of internal/auth
-- on them.
use packrune.Prelude.{
  ℕ, Bool, not, ◌||◌, Option, none, some, List, [], ◌∷◌, Bytes, ◌==◌, if◌then◌else◌, is_some,
}
use packrune.Action.{io, Result, ok, err}

pub record UserRow : Type 0 where
  pub id : Bytes
  pub email : Bytes
  pub username : Bytes
  pub display_name : Bytes
  pub password_hash : Bytes
  pub is_admin : Bool
  pub is_active : Bool
  pub created_at : ℕ
  pub updated_at : ℕ

-- `scopes` is the text of the column.
pub record TokenRow : Type 0 where
  pub id : Bytes
  pub user_id : Bytes
  pub name : Bytes
  pub hash : Bytes
  pub prefix : Bytes
  pub scopes : Bytes
  pub last_used_at : Option ℕ
  pub expires_at : Option ℕ
  pub created_at : ℕ

pub record Tables : Type 0 where
  pub users : List UserRow
  pub tokens : List TokenRow

-- The first row with a property.
unfoldable pub find_by {ℓ} : {A : Type ℓ} → (A → Bool) → List A → Option A
find_by p [] = none
find_by p (x ∷ xs) = let rest = find_by p xs in if p x then some x else rest

-- DELETE FROM … WHERE …
unfoldable pub delete_by {ℓ} : {A : Type ℓ} → (A → Bool) → List A → List A
delete_by p [] = []
delete_by p (x ∷ xs) = let rest = delete_by p xs in if p x then rest else x ∷ rest

-- UPDATE … SET … WHERE …
unfoldable pub update_by {ℓ} : {A : Type ℓ} → (A → Bool) → (A → A) → List A → List A
update_by p f [] = []
update_by p f (x ∷ xs) = let rest = update_by p f xs in if p x then f x ∷ rest else x ∷ rest

-- username = ? OR email = ?
abbrev pub is_named : Bytes → UserRow → Bool
is_named identifier u = u.username == identifier || u.email == identifier

abbrev pub has_id : Bytes → UserRow → Bool
has_id id u = u.id == id

abbrev pub has_hash : Bytes → TokenRow → Bool
has_hash hash t = t.hash == hash

abbrev pub is_token : Bytes → TokenRow → Bool
is_token id t = t.id == id

abbrev taken : UserRow → UserRow → Bool
taken u v = v.id == u.id || (v.email == u.email || v.username == u.username)

-- INSERT INTO users, with the primary key and the two unique columns.
unfoldable pub insert_user : UserRow → Tables → Result Tables
insert_user u t =
    if is_some (find_by (taken u) t.users) then err io else ok (record t { users = u ∷ t.users })

abbrev token_taken : TokenRow → TokenRow → Bool
token_taken a b = b.id == a.id || b.hash == a.hash

-- INSERT INTO tokens, with the primary key, the unique hash and the reference to the user.
unfoldable pub insert_token : TokenRow → Tables → Result Tables
insert_token a t =
    if is_some (find_by (token_taken a) t.tokens)
      || not (is_some (find_by (has_id a.user_id) t.users))
    then err io
    else ok (record t { tokens = a ∷ t.tokens })
