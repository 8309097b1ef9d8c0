-- ===== src/Auth/Passwords.antt =====
-- internal/auth/service_db.go: a new password.
use packrune.Prelude.{
  ℕ, ◌≤◌, ◌≡◌, inl, inr, refl, ◌∙◌, Bool, true, false, ◌&&◌, ◌||◌, Option, some, List, [], ◌∷◌,
  arith, Bytes, length, ◌==◌, is_some,
}
use mathlib.Core.List.{Memᴰ}
use packrune.Action.{Result, ok, err, Result-cases}
use packrune.Database.{Database}
use packrune.Auth.Tables.{UserRow, Tables, find_by, delete_by, update_by, is_named}
use packrune.Auth.Secrets.{hash_token, hash_password}
use packrune.Auth.Service.{
  User, Token, user_of, checked, is_of, with_password, authenticate_basic, authenticate_token,
  set_password_by_username,
}
use packrune.Auth.Rows.{find_joined-All, All-Mem, delete_by-rest, find_by-update}
use packrune.Auth.Sessions.{authenticate_token-Admitted}

module _ (sha256 : Bytes → Bytes) (generate : Bytes → Option Bytes)
    (compare : Bytes → Bytes → Bool) where
  module _ (now : ℕ) (identifier password hash : Bytes) where
    -- The rows that a new password leaves.
    abbrev renewed : Tables → Tables
    renewed t =
        let users = update_by (is_named identifier) (with_password now hash) t.users in
        record { users = users; tokens = delete_by (is_of identifier users) t.tokens }

    renewed_tables :
        (u : UserRow) (t : Tables)
        → hash_password generate password ≡ ok hash
        → find_by (is_named identifier) t.users ≡ some u
        → set_password_by_username generate now identifier password
            (record { tables = t; faults = [] })
          ≡ (ok tt, record { tables = renewed t; faults = [] })
    unfolding set_password_by_username
    renewed_tables u t hashed found = rw (hashed, found) refl

    authenticate_basic-checked :
        (u : UserRow) (db : Database Tables)
        → db.faults ≡ []
        → find_by (is_named identifier) db.tables.users ≡ some u
        → (authenticate_basic compare identifier password db).0 ≡ checked compare password (some u)
    unfolding authenticate_basic
    authenticate_basic-checked u db calm found = ground (arith, calm, found)

    find_by-none :
        (p : UserRow → Bool) (us : List UserRow) (u : UserRow)
        → is_some (find_by p us) ≡ false
        → Memᴰ u us
        → p u ≡ false
    unfolding find_by
    find_by-none p [] u h m = elim m [ ]
    find_by-none p (x ∷ us) u h (Memᴰ.head e) = rw e (ground arith)
    find_by-none p (x ∷ us) u h (Memᴰ.tail m) = find_by-none p us u (ground arith) m

    abbrev pub named : Result (User × Token) → Bool
    named (ok (u, k)) = u.username == identifier || u.email == identifier
    named (err e) = false

    tokens_dropped :
        (at : ℕ) (plain : Bytes) (t : Tables) (faults : List Bool)
        → named
            (authenticate_token sha256 at plain (record { tables = renewed t; faults = faults })).0
          ≡ false
    tokens_dropped at plain t faults =
        let after : Database Tables = record { tables = renewed t; faults = faults } in
        elim (Result-cases (authenticate_token sha256 at plain after).0) [
          | inr (x, r) ↦ rw r refl
          | inl ((u, k), r) ↦
              let a = authenticate_token-Admitted sha256 at plain after u k r in
              let us = (renewed t).users in
              let m =
                find_joined-All (λ r. is_of identifier us r ≡ false) (λ v. Memᴰ v us)
                  (hash_token sha256 plain) us (renewed t).tokens a.rows
                  (delete_by-rest (λ r. is_of identifier us r ≡ false) (is_of identifier us)
                    t.tokens (λ x e. e))
                  (All-Mem us) a.found in
              let out =
                find_by-none
                  (λ (v : UserRow). is_named identifier v && v.id == a.rows.token.user_id) us
                  a.rows.user m.0 m.1 in
              rw (r, a.user) (ground (arith, out, m.3))
        ]

    -- If bcrypt hashes the password and accepts what it hashed, the password has 8 to 72 bytes, an
    -- active user has the name or the address, and no statement fails, then the new password is set
    -- and lets that user in, and no token of a user with the name or the address is accepted any more.
    pub set_password-effect :
        (u : UserRow) (t : Tables) (at : ℕ) (plain : Bytes)
        → 8 ≤ length password
        → length password ≤ 72
        → generate password ≡ some hash
        → compare hash password ≡ true
        → find_by (is_named identifier) t.users ≡ some u
        → u.is_active ≡ true
        → let done =
            set_password_by_username generate now identifier password
              (record { tables = t; faults = [] }) in
          (done.0 ≡ ok tt)
          × ((authenticate_basic compare identifier password done.1).0
              ≡ ok (user_of (with_password now hash u)))
          × (named (authenticate_token sha256 at plain done.1).0 ≡ false)
    set_password-effect u t at plain long short hashed accepts found active =
        let is_hashed : hash_password generate password ≡ ok hash =
          unfold hash_password in ground (arith, hashed) in
        let after : Database Tables = record { tables = renewed t; faults = [] } in
        rw (renewed_tables u t is_hashed found) (
          refl,
          authenticate_basic-checked (with_password now hash u) after refl (
                find_by-update (is_named identifier) (with_password now hash) t.users u (λ x. refl)
                  found)
              ∙ rw (active, accepts) refl,
          tokens_dropped at plain t [],
        )
