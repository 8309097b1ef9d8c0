-- ===== src/Auth/Sessions/Logout.antt =====
-- internal/auth and handleLogout of internal/api/auth.go: a token that was revoked.
use packrune.Prelude.{
  ℕ, ◌≤◌, ◌≡◌, ◌≢◌, inl, inr, refl, ap, sym, true, false, none, some, List, [], ◌∷◌, arith, Bytes,
  ◌==◌, ==_refl, count_by, All, Option-cases, Bool-cases,
}
use packrune.Action.{ok, is_ok}
use packrune.Database.{Database}
use packrune.Auth.Tables.{UserRow, TokenRow, Tables, find_by, delete_by, has_id, has_hash, is_token}
use packrune.Auth.Secrets.{hash_token}
use packrune.Auth.Service.{
  User, Token, Joined, find_joined, touched, authenticate_token, revoke_token,
}
use packrune.Auth.Rows.{update_by-All}
use packrune.Auth.Sessions.{
  joined_in, session, authenticate_token-Admitted, authenticate_token-Keeps,
}

module _ (sha256 : Bytes → Bytes) where
  -- The rows of a hash are the row of a token.
  abbrev Only : Bytes → Bytes → List TokenRow → Type 0
  Only hash id ts = All (λ (t : TokenRow). (t.hash == hash) ≡ true → (t.id == id) ≡ true) ts

  none-Only :
      (hash id : Bytes) (ts : List TokenRow) → count_by (has_hash hash) ts ≡ 0 → Only hash id ts
  none-Only hash id [] h = tt
  none-Only hash id (t ∷ ts) h =
      (λ e. absurd (ground (arith, e)), none-Only hash id ts (ground arith))

  found-Only :
      (hash : Bytes) (users : List UserRow) (ts : List TokenRow) (j : Joined)
      → count_by (has_hash hash) ts ≤ 1
      → find_joined hash users ts ≡ some j
      → Only hash j.token.id ts
  unfolding find_joined
  found-Only hash users [] j once h = tt
  found-Only hash users (t ∷ ts) j once h = elim (Bool-cases (t.hash == hash)) [
    | inr e ↦ (
      λ k. absurd (ground (arith, e, k)),
      found-Only hash users ts j (ground (arith, e)) (ground (arith, e)),
    )
    | inl e ↦
        let rest : count_by (has_hash hash) ts ≡ 0 = ground (arith, e) in
        elim (Option-cases (find_by (has_id t.user_id) users)) [
          | inl missing ↦ absurd (none-found ts rest (ground (arith, e, missing)))
          | inr (u, found) ↦
              let same : t ≡ j.token = ground (arith, e, found) in
              (λ k. rw same (==_refl j.token.id), none-Only hash j.token.id ts rest)
        ]
  ]
    where
      none-found :
          (ts : List TokenRow)
          → count_by (has_hash hash) ts ≡ 0
          → find_joined hash users ts ≢ some j
      none-found [] h k = ground arith
      none-found (t ∷ ts) h k = none-found ts (ground arith) (ground arith)

  revoked_none :
      (hash id : Bytes) (users : List UserRow) (ts : List TokenRow)
      → Only hash id ts
      → find_joined hash users (delete_by (is_token id) ts) ≡ none
  unfolding find_joined delete_by
  revoked_none hash id users [] h = refl
  revoked_none hash id users (t ∷ ts) (h, hs) = elim (Bool-cases (t.id == id)) [
    | inl e ↦ rw e (revoked_none hash id users ts hs)
    | inr e ↦ elim (Bool-cases (t.hash == hash)) [
      | inl same ↦ absurd (ground (arith, e, h same))
      | inr other ↦ rw (e, other) (revoked_none hash id users ts hs)
    ]
  ]

  revoked_refused :
      (later : ℕ) (plain : Bytes) (db : Database Tables)
      → joined_in sha256 plain db.tables ≡ none
      → is_ok (session sha256 later plain db).0 ≡ false
  unfolding authenticate_token
  revoked_refused later plain db h = ground (arith, h)

  revoke_token-tables :
      (id : Bytes) (db : Database Tables)
      → (revoke_token id db).0 ≡ ok tt
      → (revoke_token id db).1.tables
        ≡ record db.tables { tokens = delete_by (is_token id) db.tables.tokens }
  unfolding revoke_token
  revoke_token-tables id db h = ground (arith, h)

  -- A logout: once the token that was accepted is revoked, it is not accepted again, at any time. The
  -- hash of a token is unique in the table; any statement but the one that revokes may fail.
  pub revoke_token-refused :
      (now later : ℕ) (plain : Bytes) (u : User) (k : Token) (db : Database Tables)
      → count_by (has_hash (hash_token sha256 plain)) db.tables.tokens ≤ 1
      → (session sha256 now plain db).0 ≡ ok (u, k)
      → (revoke_token k.id (session sha256 now plain db).1).0 ≡ ok tt
      → is_ok (session sha256 later plain (revoke_token k.id (session sha256 now plain db).1).1).0
        ≡ false
  revoke_token-refused now later plain u k db once accepted revoked =
      let a = authenticate_token-Admitted sha256 now plain db u k accepted in
      let hash = hash_token sha256 plain in
      let only = found-Only hash db.tables.users db.tables.tokens a.rows once a.found in
      let kept =
        authenticate_token-Keeps sha256 (λ t. Only hash a.rows.token.id t.tokens) now plain db only
          (λ id.
            update_by-All _ (is_token id) (touched now) db.tables.tokens (λ x one. one) only) in
      let after = (session sha256 now plain db).1 in
      let same : a.rows.token.id ≡ k.id = ap (λ (x : Token). x.id) (sym a.token) in
      revoked_refused later plain (revoke_token k.id after).1 (
        rw (revoke_token-tables k.id after revoked)
          (revoked_none hash k.id after.tables.users after.tables.tokens (rw (sym same) kept)))
