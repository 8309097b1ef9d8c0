-- ===== src/Auth/Sessions.antt =====
-- internal/auth: who a token stands for, and until when.
pub mod Logout
use packrune.Prelude.{
  ℕ, zero, suc, ◌+◌, ◌*◌, ◌≤◌, ◌≡◌, ◌≢◌, ◌⊎◌, inl, inr, refl, ap, sym, ◌∙◌, Bool, true, false, not,
  ◌&&◌, ◌||◌, Option, none, some, List, [], ◌∷◌, ◌++◌, arith, Bytes, codes, length, length-append,
  ◌==◌, eq_iff, ==_refl, if◌then◌else◌, is_some, count_by, All, join, split_column-join, has_prefix,
  strip_prefix?-append, nat_eq, nat_eq_iff, Option-cases, Bool-cases,
}
use mathlib.Core.List.{Memᴰ}
use packrune.Action.{Result, ok, err, is_ok, ok-injective, Result-cases}
use mathlib.Core.Path.{subst}
use packrune.Database.{change-Keeps, head_fault, tail_faults, Database, query, change}
use packrune.Storage.Disk.{take}
use packrune.Storage.Cas.Hash.{encode_hex, length-encode_hex}
use packrune.Auth.Tables.{
  UserRow, TokenRow, Tables, find_by, delete_by, update_by, has_id, has_hash, is_token,
  insert_token,
}
use packrune.Auth.Secrets.{
  token_prefix, token_payload_bytes, hash_token, new_token, looks_like_token,
}
use packrune.Auth.Service.{
  User, Token, user_of, token_of, Joined, find_joined, admitted, is_expired, expiry, touch, touched,
  issue_token, authenticate_token, revoke_token,
}
use packrune.Auth.Rows.{
  update_by-All, find_joined-All, All-Mem, All-of_Mem, delete_by-All, delete_by-rest,
}

module _ (sha256 : Bytes → Bytes) where
  abbrev pub joined_in : Bytes → Tables → Option Joined
  joined_in plain t = find_joined (hash_token sha256 plain) t.users t.tokens

  -- What an admitted token was joined to.
  pub record Admitted (now : ℕ) (plain : Bytes) (t : Tables) (u : User) (k : Token) : Type 0 where
    pub rows : Joined
    pub shaped : looks_like_token plain ≡ true
    pub found : joined_in plain t ≡ some rows
    pub active : rows.user.is_active ≡ true
    pub lives : is_expired now rows.token.expires_at ≡ false
    pub user : u ≡ user_of rows.user
    pub token : k ≡ token_of rows.token

  pub authenticate_token-Admitted :
      (now : ℕ) (plain : Bytes) (db : Database Tables) (u : User) (k : Token)
      → (authenticate_token sha256 now plain db).0 ≡ ok (u, k)
      → Admitted now plain db.tables u k
  unfolding authenticate_token
  authenticate_token-Admitted now plain db u k h = elim (Option-cases (joined_in plain db.tables)) [
    | inl e ↦ absurd (ground (arith, e))
    | inr (j, e) ↦ record {
      rows = j;
      shaped = ground (arith, e);
      found = e;
      active = ground (arith, e);
      lives = ground (arith, e);
      user = ground (arith, e);
      token = ground (arith, e);
    }
  ]

  -- A token that is accepted has the form of tokens, is stored by its hash, has not passed its
  -- end, and belongs to an active user, who is the one that is answered. This holds whatever
  -- statements fail.
  pub authenticate_token-Mem :
      (now : ℕ) (plain : Bytes) (db : Database Tables) (u : User) (k : Token)
      → (authenticate_token sha256 now plain db).0 ≡ ok (u, k)
      → (v : UserRow) × (r : TokenRow) × Memᴰ v db.tables.users
        × Memᴰ r db.tables.tokens
        × (r.hash ≡ hash_token sha256 plain)
        × (r.user_id ≡ v.id)
        × (v.is_active ≡ true)
        × (is_expired now r.expires_at ≡ false)
        × (looks_like_token plain ≡ true)
        × (u ≡ user_of v)
        × (k ≡ token_of r)
  authenticate_token-Mem now plain db u k h =
      let a = authenticate_token-Admitted now plain db u k h in
      let rows = a.rows in
      let hash = hash_token sha256 plain in
      let m =
        find_joined-All (λ r. Memᴰ r db.tables.tokens) (λ v. Memᴰ v db.tables.users) hash
          db.tables.users db.tables.tokens rows (All-Mem db.tables.tokens) (All-Mem db.tables.users)
          a.found in
      (
        rows.user,
        rows.token,
        m.1,
        m.0,
        (eq_iff rows.token.hash hash).0 m.2,
        sym ((eq_iff rows.user.id rows.token.user_id).0 m.3),
        a.active,
        a.lives,
        a.shaped,
        a.user,
        a.token,
      )

  looks-new :
      (random : Bytes)
      → length random ≡ token_payload_bytes
      → looks_like_token (token_prefix ++ encode_hex random) ≡ true
  unfolding looks_like_token has_prefix
  looks-new random size = ground (
    arith,
    strip_prefix?-append token_prefix (encode_hex random),
    length-append token_prefix (encode_hex random),
    length-encode_hex random,
    size,
    nat_eq_iff (length (token_prefix ++ encode_hex random))
        (length token_prefix + 2 * token_payload_bytes),
  )

  abbrev issued_row : Bytes → Bytes → ℕ → Bytes → Bytes → List Bytes → ℕ → TokenRow
  issued_row random id now user_id name scopes ttl =
      let plain = token_prefix ++ encode_hex random in
      record {
        id = id;
        user_id = user_id;
        name = name;
        hash = hash_token sha256 plain;
        prefix = take (length token_prefix + 8) plain;
        scopes = join scopes b',';
        last_used_at = none;
        expires_at = expiry now ttl;
        created_at = now;
      }

  find_joined-head :
      (r : TokenRow) (u : UserRow) (users : List UserRow) (ts : List TokenRow)
      → find_by (has_id r.user_id) users ≡ some u
      → find_joined r.hash users (r ∷ ts) ≡ some (record { token = r; user = u })
  unfolding find_joined
  find_joined-head r u users ts h = rw (==_refl r.hash, h) refl

  authenticate_token-admitted :
      (now : ℕ) (plain : Bytes) (db : Database Tables) (j : Joined)
      → db.faults ≡ []
      → looks_like_token plain ≡ true
      → joined_in plain db.tables ≡ some j
      → j.user.is_active ≡ true
      → is_expired now j.token.expires_at ≡ false
      → (authenticate_token sha256 now plain db).0 ≡ ok (user_of j.user, token_of j.token)
  unfolding authenticate_token
  authenticate_token-admitted now plain db j calm shaped found active lives =
      ground (arith, found, calm, shaped, active, lives)

  issue_token-row :
      (random id : Bytes) (now : ℕ) (user_id name : Bytes) (scopes : List Bytes) (ttl : ℕ)
      (db : Database Tables)
      → db.faults ≡ []
      → insert_token (issued_row random id now user_id name scopes ttl) db.tables
        ≡ ok (record db.tables {
          tokens = issued_row random id now user_id name scopes ttl ∷ db.tables.tokens;
        })
      → let done = issue_token sha256 (some random) id now user_id name scopes ttl db in
        (done.0
          ≡ ok (
            token_prefix ++ encode_hex random,
            record {
              id = id;
              user_id = user_id;
              name = name;
              prefix = take (length token_prefix + 8) (token_prefix ++ encode_hex random);
              scopes = scopes;
              last_used_at = none;
              expires_at = expiry now ttl;
              created_at = now;
            },
          ))
        × (done.1.tables ≡ record db.tables {
          tokens = issued_row random id now user_id name scopes ttl ∷ db.tables.tokens;
        })
        × (done.1.faults ≡ [])
  unfolding issue_token new_token
  issue_token-row random id now user_id name scopes ttl db calm inserted =
      (rw (calm, inserted) refl, rw (calm, inserted) refl, ground (arith, calm, inserted))

  -- If no statement fails, the user exists and is active, neither the identifier nor the hash of the
  -- new token is in use, and the scopes hold no comma and are not the empty text alone, then a token
  -- is issued, and until its end it is accepted, for that user and with the data it was issued with.
  pub issue_token-authenticate_token :
      (random id : Bytes) (now later : ℕ) (name : Bytes) (scopes : List Bytes) (ttl : ℕ)
      (u : UserRow) (user_id : Bytes) (db : Database Tables)
      → db.faults ≡ []
      → length random ≡ token_payload_bytes
      → find_by (has_id user_id) db.tables.users ≡ some u
      → u.is_active ≡ true
      → find_by
          (λ (t : TokenRow).
            t.id == id || t.hash == hash_token sha256 (token_prefix ++ encode_hex random))
          db.tables.tokens
        ≡ none
      → All (λ s. All (λ c. c ≢ b',') s) scopes
      → scopes ≢ [] ∷ []
      → is_expired later (expiry now ttl) ≡ false
      → let done = issue_token sha256 (some random) id now user_id name scopes ttl db in
        let plain = token_prefix ++ encode_hex random in
        (k : Token) × (done.0 ≡ ok (plain, k))
        × ((authenticate_token sha256 later plain done.1).0 ≡ ok (user_of u, k))
        × (k.scopes ≡ scopes)
        × (k.expires_at ≡ expiry now ttl)
  issue_token-authenticate_token random id now later name scopes ttl u user_id db calm size exists
        active fresh plain_scopes not_blank lives =
      let r = issued_row random id now user_id name scopes ttl in
      let inserted : insert_token r db.tables
          ≡ ok (record db.tables { tokens = r ∷ db.tables.tokens }) =
        unfold insert_token in rw (fresh, exists) refl in
      let row = issue_token-row random id now user_id name scopes ttl db calm inserted in
      let plain = token_prefix ++ encode_hex random in
      let after = (issue_token sha256 (some random) id now user_id name scopes ttl db).1 in
      let found : joined_in plain after.tables ≡ some (record { token = r; user = u }) =
        rw row.1 (find_joined-head r u db.tables.users db.tables.tokens exists) in
      let read = split_column-join scopes plain_scopes not_blank in
      let same : token_of r ≡ record (token_of r) { scopes = scopes } = rw read refl in
      (
        record (token_of r) { scopes = scopes },
        row.0,
        authenticate_token-admitted later plain after (record { token = r; user = u }) row.2
              (looks-new random size) found active lives
            ∙ ap (λ (k : Token). ok (user_of u, k)) same,
        refl,
        refl,
      )

  abbrev pub session : ℕ → Bytes → Database Tables → Result (User × Token) × Database Tables
  session now plain db = authenticate_token sha256 now plain db

  -- An authentication changes no more than the time of last use.
  pub authenticate_token-Keeps {κ} :
      (P : Tables → Type κ) (now : ℕ) (plain : Bytes) (db : Database Tables)
      → P db.tables
      → ((id : Bytes)
          → P (record db.tables {
            tokens = update_by (is_token id) (touched now) db.tables.tokens;
          }))
      → P (session now plain db).1.tables
  unfolding authenticate_token
  authenticate_token-Keeps P now plain db h k = elim (Bool-cases (looks_like_token plain)) [
    | inr e ↦ rw e h
    | inl e ↦ elim (Bool-cases (head_fault db.faults)) [
      | inl f ↦ rw (e, f) h
      | inr f ↦ elim (Result-cases (admitted now (joined_in plain db.tables))) [
        | inr (x, r) ↦ rw (e, f, r) h
        | inl (j, r) ↦
            rw (e, f, r)
              (change-Keeps P
                (λ t.
                  ok (record t { tokens = update_by (is_token j.token.id) (touched now) t.tokens }))
                (record { tables = db.tables; faults = tail_faults db.faults }) h
                (λ t made. subst P (ok-injective made) (k j.token.id)))
      ]
    ]
  ]
