-- ===== src/Auth/Service.antt =====
-- internal/auth/auth.go and service_db.go: the service over the two tables.
use packrune.Prelude.{
  ℕ, ◌+◌, Bool, true, false, not, ◌&&◌, ◌||◌, Option, none, some, List, [], ◌∷◌, Bytes, ◌==◌, ltb,
  leb, if◌then◌else◌, is_some, join, split_column, trim_space, sort_by,
}
use packrune.Action.{
  not_found, bad_name, unauthorized, Result, ok, err, Action, ◌>>=◌, ◌>>◌, pure, attempt,
}
use packrune.Database.{Database, query, change}
use packrune.Auth.Tables.{
  UserRow, TokenRow, Tables, find_by, delete_by, update_by, is_named, has_id, is_token, insert_user,
  insert_token,
}
use packrune.Auth.Secrets.{hash_token, new_token, looks_like_token, hash_password}

pub record User : Type 0 where
  pub id : Bytes
  pub email : Bytes
  pub username : Bytes
  pub display_name : Bytes
  pub is_admin : Bool
  pub is_active : Bool
  pub created_at : ℕ
  pub updated_at : ℕ

pub record Token : Type 0 where
  pub id : Bytes
  pub user_id : Bytes
  pub name : Bytes
  pub prefix : Bytes
  pub scopes : List Bytes
  pub last_used_at : Option ℕ
  pub expires_at : Option ℕ
  pub created_at : ℕ

abbrev pub user_of : UserRow → User
user_of u = record {
  id = u.id;
  email = u.email;
  username = u.username;
  display_name = u.display_name;
  is_admin = u.is_admin;
  is_active = u.is_active;
  created_at = u.created_at;
  updated_at = u.updated_at;
}

abbrev pub token_of : TokenRow → Token
token_of t = record {
  id = t.id;
  user_id = t.user_id;
  name = t.name;
  prefix = t.prefix;
  scopes = split_column t.scopes;
  last_used_at = t.last_used_at;
  expires_at = t.expires_at;
  created_at = t.created_at;
}

abbrev lift : {A : Type 0} → Result A → Action (Database Tables) A
lift r db = (r, db)

-- CreateUser; `id` and `now` are what uuid and time deliver.
unfoldable pub create_user :
    (Bytes → Option Bytes)
    → Bytes
    → ℕ
    → Bytes
    → Bytes
    → Bytes
    → Bool
    → Action (Database Tables) User
create_user generate id now email username password is_admin db =
    let email' = trim_space email in
    let username' = trim_space username in
    if email' == [] || username' == []
    then (err bad_name, db)
    else (do
      hash ← lift (hash_password generate password)
      let row : UserRow = record {
        id = id;
        email = email';
        username = username';
        display_name = username';
        password_hash = hash;
        is_admin = is_admin;
        is_active = true;
        created_at = now;
        updated_at = now;
      } in
          (do change (insert_user row); pure (user_of row)))
        db

-- The row that a login is tested against, and the test; `compare` is whether
-- bcrypt.CompareHashAndPassword returns no error.
abbrev pub checked : (Bytes → Bytes → Bool) → Bytes → Option UserRow → Result User
checked compare password none = err unauthorized
checked compare password (some u) =
    if not u.is_active
    then err unauthorized
    else if compare u.password_hash password
    then ok (user_of u)
    else err unauthorized

-- AuthenticateBasic
unfoldable pub authenticate_basic :
    (Bytes → Bytes → Bool) → Bytes → Bytes → Action (Database Tables) User
authenticate_basic compare identifier password =
    query (λ t. checked compare password (find_by (is_named identifier) t.users))

-- The end of a token's life; a ttl that is not positive is none.
abbrev pub expiry : ℕ → ℕ → Option ℕ
expiry now ttl = if ltb 0 ttl then some (now + ttl) else none

-- t.After(u), for an end that may be missing
abbrev pub is_expired : ℕ → Option ℕ → Bool
is_expired now none = false
is_expired now (some end) = ltb end now

pub record Joined : Type 0 where
  pub token : TokenRow
  pub user : UserRow

abbrev pub join_user : TokenRow → Option UserRow → Option Joined → Option Joined
join_user t none rest = rest
join_user t (some u) rest = some (record { token = t; user = u })

-- tokens t INNER JOIN users u ON u.id = t.user_id WHERE t.hash = ?
unfoldable pub find_joined : Bytes → List UserRow → List TokenRow → Option Joined
find_joined hash users [] = none
find_joined hash users (t ∷ ts) =
    let rest = find_joined hash users ts in
    if t.hash == hash then join_user t (find_by (has_id t.user_id) users) rest else rest

abbrev pub admitted : ℕ → Option Joined → Result Joined
admitted now none = err unauthorized
admitted now (some j) =
    if not j.user.is_active
    then err unauthorized
    else if is_expired now j.token.expires_at
    then err unauthorized
    else ok j

abbrev pub touched : ℕ → TokenRow → TokenRow
touched now t = record t { last_used_at = some now }

-- UPDATE tokens SET last_used_at = ?
abbrev pub touch : ℕ → Bytes → Action (Database Tables) (Unit {0})
touch now id =
    change (λ t. ok (record t { tokens = update_by (is_token id) (touched now) t.tokens }))

-- RevokeToken
unfoldable pub revoke_token : Bytes → Action (Database Tables) (Unit {0})
revoke_token id = change (λ t. ok (record t { tokens = delete_by (is_token id) t.tokens }))

unfoldable pub tokens_of : List TokenRow → List Token
tokens_of [] = []
tokens_of (t ∷ ts) = token_of t ∷ tokens_of ts

unfoldable pub rows_for : Bytes → List TokenRow → List TokenRow
rows_for user_id [] = []
rows_for user_id (t ∷ ts) =
    let rest = rows_for user_id ts in if t.user_id == user_id then t ∷ rest else rest

-- ListTokens, the newest first.
unfoldable pub list_tokens : Bytes → Action (Database Tables) (List Token)
list_tokens user_id = query (λ t.
    ok (tokens_of (sort_by (λ a b. leb b.created_at a.created_at) (rows_for user_id t.tokens))))

unfoldable pub users_of : List UserRow → List User
users_of [] = []
users_of (u ∷ us) = user_of u ∷ users_of us

-- ListUsers, the newest first.
unfoldable pub list_users : Action (Database Tables) (List User)
list_users = query (λ t. ok (users_of (sort_by (λ a b. leb b.created_at a.created_at) t.users)))

abbrev pub deactivated : ℕ → UserRow → UserRow
deactivated now u = record u { is_active = false; updated_at = now }

-- DeactivateUser
unfoldable pub deactivate_user : ℕ → Bytes → Action (Database Tables) (Unit {0})
deactivate_user now id =
    change (λ t. ok (record t { users = update_by (has_id id) (deactivated now) t.users }))

abbrev pub with_password : ℕ → Bytes → UserRow → UserRow
with_password now hash u = record u { password_hash = hash; updated_at = now }

-- user_id IN (SELECT id FROM users WHERE username = ? OR email = ?)
abbrev pub is_of : Bytes → List UserRow → TokenRow → Bool
is_of identifier users t =
    is_some (find_by (λ (u : UserRow). is_named identifier u && u.id == t.user_id) users)

abbrev pub drop_tokens : Bytes → Action (Database Tables) (Unit {0})
drop_tokens identifier =
    change (λ t. ok (record t { tokens = delete_by (is_of identifier t.users) t.tokens }))

-- UPDATE users SET password_hash, and how many rows that touched.
abbrev pub set_hash : ℕ → Bytes → Bytes → Database Tables → Result Bool × Database Tables
set_hash now hash identifier db =
    let some_row = is_some (find_by (is_named identifier) db.tables.users) in
    let (done, db') =
      change
        (λ t.
          ok
            (record t { users = update_by (is_named identifier) (with_password now hash) t.users }))
        db in
    (elim done [ ok u ↦ ok some_row | err e ↦ err e ], db')

abbrev pub drop_if : Bytes → Bool → Action (Database Tables) (Unit {0})
drop_if identifier true db = (ok tt, (drop_tokens identifier db).1)
drop_if identifier false db = (err not_found, db)

-- SetPasswordByUsername; the sessions that could not be dropped stay.
unfoldable pub set_password_by_username :
    (Bytes → Option Bytes) → ℕ → Bytes → Bytes → Action (Database Tables) (Unit {0})
set_password_by_username generate now identifier password = do
  hash ← lift (hash_password generate password)
  changed ← set_hash now hash identifier
  drop_if identifier changed

module _ (sha256 : Bytes → Bytes) where
  -- IssueToken
  unfoldable pub issue_token :
      Option Bytes
      → Bytes
      → ℕ
      → Bytes
      → Bytes
      → List Bytes
      → ℕ
      → Action (Database Tables) (Bytes × Token)
  issue_token random id now user_id name scopes ttl = do
    t ← lift (new_token sha256 random)
    change (
        insert_token (record {
          id = id;
          user_id = user_id;
          name = name;
          hash = t.hash;
          prefix = t.display_prefix;
          scopes = join scopes b',';
          last_used_at = none;
          expires_at = expiry now ttl;
          created_at = now;
        }))
    pure (
      t.plain,
      record {
        id = id;
        user_id = user_id;
        name = name;
        prefix = t.display_prefix;
        scopes = scopes;
        last_used_at = none;
        expires_at = expiry now ttl;
        created_at = now;
      },
    )

  -- AuthenticateToken; the refresh of last_used_at may fail.
  unfoldable pub authenticate_token : ℕ → Bytes → Action (Database Tables) (User × Token)
  authenticate_token now plain db =
      if not (looks_like_token plain)
      then (err unauthorized, db)
      else (do
        j ← query (λ t. admitted now (find_joined (hash_token sha256 plain) t.users t.tokens))
        attempt (touch now j.token.id)
        pure (user_of j.user, token_of j.token))
          db
