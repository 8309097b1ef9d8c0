-- ===== src/Auth/Accounts.antt =====
-- internal/auth/service_db.go: users who were deactivated.
use packrune.Prelude.{
  ℕ, ◌≡◌, inl, inr, refl, ap, Bool, true, false, ◌||◌, Option, List, [], ◌∷◌, arith, Bytes, ◌==◌,
  All, trim_space, Option-cases, Bool-cases,
}
use mathlib.Core.Path.{subst}
use packrune.Action.{Result, ok, err, next-Keeps, ok-injective, Result-cases}
use packrune.Database.{Database, change, change-Keeps, query-Keeps}
use packrune.Auth.Tables.{
  UserRow, TokenRow, Tables, find_by, delete_by, update_by, is_named, has_id, is_token, insert_user,
  insert_token,
}
use packrune.Auth.Secrets.{hash_token, new_token, hash_password}
use packrune.Auth.Service.{
  User, Token, checked, is_of, with_password, deactivated, set_hash, drop_if, create_user,
  authenticate_basic, issue_token, authenticate_token, revoke_token, deactivate_user,
  set_password_by_username,
}
use packrune.Auth.Rows.{All-of, find_by-All, find_joined-All, update_by-All, update_by-made}
use packrune.Auth.Sessions.{authenticate_token-Admitted, authenticate_token-Keeps}

-- A call of the service.
pub data Call : Type 0 where
  create : Bytes → ℕ → Bytes → Bytes → Bytes → Bool → Call
  login : Bytes → Bytes → Call
  issue : Option Bytes → Bytes → ℕ → Bytes → Bytes → List Bytes → ℕ → Call
  present : ℕ → Bytes → Call
  revoke : Bytes → Call
  new_password : ℕ → Bytes → Bytes → Call
  deactivate : ℕ → Bytes → Call

-- The call makes no user of the identifier.
unfoldable pub Spares : Bytes → Call → Type 0
Spares id (create new now email username password is_admin) = (new == id) ≡ false
Spares id (login identifier password) = Unit
Spares id (issue random t now user_id name scopes ttl) = Unit
Spares id (present now plain) = Unit
Spares id (revoke t) = Unit
Spares id (new_password now identifier password) = Unit
Spares id (deactivate now user_id) = Unit

abbrev pub Inactive : Bytes → Tables → Type 0
Inactive id t = All (λ (u : UserRow). (u.id == id) ≡ true → u.is_active ≡ false) t.users

module _ (sha256 : Bytes → Bytes) (generate : Bytes → Option Bytes)
    (compare : Bytes → Bytes → Bool) where
  unfoldable pub call : Call → Database Tables → Database Tables
  call (create id now email username password is_admin) db =
      (create_user generate id now email username password is_admin db).1
  call (login identifier password) db = (authenticate_basic compare identifier password db).1
  call (issue random id now user_id name scopes ttl) db =
      (issue_token sha256 random id now user_id name scopes ttl db).1
  call (present now plain) db = (authenticate_token sha256 now plain db).1
  call (revoke id) db = (revoke_token id db).1
  call (new_password now identifier password) db =
      (set_password_by_username generate now identifier password db).1
  call (deactivate now id) db = (deactivate_user now id db).1

  unfoldable pub calls : List Call → Database Tables → Database Tables
  calls [] db = db
  calls (c ∷ cs) db = calls cs (call c db)

  module _ (id : Bytes) where
    abbrev Off : UserRow → Type 0
    Off u = (u.id == id) ≡ true → u.is_active ≡ false

    abbrev OffIn : Database Tables → Type 0
    OffIn db = Inactive id db.tables

    insert_user-Inactive :
        (u : UserRow) (t t' : Tables)
        → (u.id == id) ≡ false
        → Inactive id t
        → insert_user u t ≡ ok t'
        → Inactive id t'
    unfolding insert_user
    insert_user-Inactive u t t' other h made =
        let users : u ∷ t.users ≡ t'.users = ground (arith, made) in
        subst (λ us. All Off us) users (λ e. absurd (ground (arith, e, other)), h)

    create-Inactive :
        (new : Bytes) (now : ℕ) (email username password : Bytes) (is_admin : Bool)
        (db : Database Tables)
        → (new == id) ≡ false
        → Inactive id db.tables
        → Inactive id (create_user generate new now email username password is_admin db).1.tables
    unfolding create_user
    create-Inactive new now email username password is_admin db other h =
        elim (Bool-cases (trim_space email == [] || trim_space username == [])) [
          | inl e ↦ rw e h
          | inr e ↦ rw e (
              next-Keeps OffIn (hash_password generate password, db) _ h
                (λ hash db1 h1.
                  next-Keeps OffIn (change (insert_user _) db1) _
                    (change-Keeps (λ t. Inactive id t) (insert_user _) db1 h1
                      (λ t' made. insert_user-Inactive _ db1.tables t' other h1 made))
                    (λ u db2 h2. h2)))
        ]

    new_password-Inactive :
        (now : ℕ) (identifier password : Bytes) (db : Database Tables)
        → Inactive id db.tables
        → Inactive id (set_password_by_username generate now identifier password db).1.tables
    unfolding set_password_by_username
    new_password-Inactive now identifier password db h =
        next-Keeps OffIn (hash_password generate password, db) _ h
          (λ hash db1 h1.
            next-Keeps OffIn (set_hash now hash identifier db1) _
              (change-Keeps (λ t. Inactive id t)
                (λ t. ok (record t {
                  users = update_by (is_named identifier) (with_password now hash) t.users;
                }))
                db1 h1
                (λ t made.
                  subst (λ x. Inactive id x) (ok-injective made)
                    (update_by-All Off (is_named identifier) (with_password now hash)
                      db1.tables.users (λ u off e. off e) h1)))
              (λ changed db2 h2. drop_if-Inactive changed db2 h2))
      where
        drop_if-Inactive :
            (changed : Bool) (db2 : Database Tables)
            → Inactive id db2.tables
            → Inactive id (drop_if identifier changed db2).1.tables
        drop_if-Inactive false db2 h2 = h2
        drop_if-Inactive true db2 h2 =
            change-Keeps (λ t. Inactive id t)
              (λ t. ok (record t { tokens = delete_by (is_of identifier t.users) t.tokens })) db2 h2
              (λ t made. subst (λ x. Inactive id x) (ok-injective made) h2)

    insert_token-Inactive :
        (r : TokenRow) (t t' : Tables) → Inactive id t → insert_token r t ≡ ok t' → Inactive id t'
    unfolding insert_token
    insert_token-Inactive r t t' h made =
        let users : t.users ≡ t'.users = ground (arith, made) in subst (λ us. All Off us) users h

    issue-Inactive :
        (random : Option Bytes) (t : Bytes) (now : ℕ) (user_id name : Bytes) (scopes : List Bytes)
        (ttl : ℕ) (db : Database Tables)
        → Inactive id db.tables
        → Inactive id (issue_token sha256 random t now user_id name scopes ttl db).1.tables
    unfolding issue_token
    issue-Inactive random t now user_id name scopes ttl db h =
        next-Keeps OffIn (new_token sha256 random, db) _ h
          (λ new db1 h1.
            next-Keeps OffIn (change (insert_token _) db1) _
              (change-Keeps (λ t. Inactive id t) (insert_token _) db1 h1
                (λ t' made. insert_token-Inactive _ db1.tables t' h1 made))
              (λ u db2 h2. h2))

    call-Inactive :
        (c : Call) (db : Database Tables)
        → Spares id c
        → Inactive id db.tables
        → Inactive id (call c db).tables
    unfolding call Spares
    call-Inactive (create new now email username password is_admin) db other h =
        create-Inactive new now email username password is_admin db other h
    call-Inactive (login identifier password) db s h =
        unfold authenticate_basic in
        query-Keeps (λ t. Inactive id t)
          (λ t. checked compare password (find_by (is_named identifier) t.users)) db h
    call-Inactive (issue random t now user_id name scopes ttl) db s h =
        issue-Inactive random t now user_id name scopes ttl db h
    call-Inactive (present now plain) db s h =
        authenticate_token-Keeps sha256 (λ t. Inactive id t) now plain db h (λ k. h)
    call-Inactive (revoke t) db s h =
        unfold revoke_token in
        change-Keeps (λ x. Inactive id x)
          (λ x. ok (record x { tokens = delete_by (is_token t) x.tokens })) db h
          (λ x made. subst (λ y. Inactive id y) (ok-injective made) h)
    call-Inactive (new_password now identifier password) db s h =
        new_password-Inactive now identifier password db h
    call-Inactive (deactivate now user_id) db s h =
        unfold deactivate_user in
        change-Keeps (λ t. Inactive id t)
          (λ t. ok (record t { users = update_by (has_id user_id) (deactivated now) t.users })) db h
          (λ t made.
            subst (λ x. Inactive id x) (ok-injective made)
              (update_by-All Off (has_id user_id) (deactivated now) db.tables.users
                (λ u off e. refl) h))

    calls-Inactive :
        (cs : List Call) (db : Database Tables)
        → All (Spares id) cs
        → Inactive id db.tables
        → Inactive id (calls cs db).tables
    unfolding calls
    calls-Inactive [] db s h = h
    calls-Inactive (c ∷ cs) db (s, ss) h = calls-Inactive cs (call c db) ss (call-Inactive c db s h)

    deactivate_user-Inactive :
        (now : ℕ) (db : Database Tables)
        → (deactivate_user now id db).0 ≡ ok tt
        → Inactive id (deactivate_user now id db).1.tables
    unfolding deactivate_user
    deactivate_user-Inactive now db done =
        let tables : (deactivate_user now id db).1.tables
            ≡ record db.tables { users = update_by (has_id id) (deactivated now) db.tables.users } =
          ground (arith, done) in
        rw tables (
          update_by-made Off (has_id id) (deactivated now) db.tables.users (λ u here e. refl)
            (λ u other e. absurd (ground (arith, e, other))))

    abbrev pub answers : Result User → Bool
    answers (ok u) = u.id == id
    answers (err e) = false

    abbrev pub answers_with : Result (User × Token) → Bool
    answers_with (ok (u, k)) = u.id == id
    answers_with (err e) = false

    authenticate_basic-Off :
        (identifier password : Bytes) (db : Database Tables)
        → Inactive id db.tables
        → answers (authenticate_basic compare identifier password db).0 ≡ false
    unfolding authenticate_basic
    authenticate_basic-Off identifier password db h =
        elim (Option-cases (find_by (is_named identifier) db.tables.users)) [
          | inl e ↦ ground (arith, e)
          | inr (v, e) ↦
              let off = find_by-All Off (is_named identifier) db.tables.users v h e in
              elim (Bool-cases (v.id == id)) [
                | inl here ↦ ground (arith, e, off.0 here)
                | inr other ↦ ground (arith, e, other)
              ]
        ]

    authenticate_token-Off :
        (now : ℕ) (plain : Bytes) (db : Database Tables)
        → Inactive id db.tables
        → answers_with (authenticate_token sha256 now plain db).0 ≡ false
    authenticate_token-Off now plain db h =
        elim (Result-cases (authenticate_token sha256 now plain db).0) [
          | inr (x, r) ↦ rw r refl
          | inl ((u, k), r) ↦
              let a = authenticate_token-Admitted sha256 now plain db u k r in
              let off =
                find_joined-All (λ r. Unit {0}) Off (hash_token sha256 plain) db.tables.users
                  db.tables.tokens a.rows (All-of (λ r. Unit {0}) (λ r. tt) db.tables.tokens) h
                  a.found in
              let same : u.id ≡ a.rows.user.id = ap (λ (x : User). x.id) a.user in
              rw (r, same)
                (elim (Bool-cases (a.rows.user.id == id)) [
                  | inl here ↦ absurd (ground (arith, a.active, off.1 here))
                  | inr other ↦ other
                ])
        ]

    -- A deactivated user stays out: whatever calls follow, none of which makes a user of that
    -- identifier, and whatever statements fail, neither a password nor a token is answered with that
    -- user.
    pub deactivate_user-refused :
        (now at : ℕ) (identifier password plain : Bytes) (db : Database Tables) (cs : List Call)
        → (deactivate_user now id db).0 ≡ ok tt
        → All (Spares id) cs
        → let later = calls cs (deactivate_user now id db).1 in
          (answers (authenticate_basic compare identifier password later).0 ≡ false)
          × (answers_with (authenticate_token sha256 at plain later).0 ≡ false)
    deactivate_user-refused now at identifier password plain db cs done spared =
        let later = calls cs (deactivate_user now id db).1 in
        let off =
          calls-Inactive cs (deactivate_user now id db).1 spared
            (deactivate_user-Inactive now db done) in
        (
          authenticate_basic-Off identifier password later off,
          authenticate_token-Off at plain later off,
        )
