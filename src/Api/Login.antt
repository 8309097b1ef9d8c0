-- ===== src/Api/Login.antt =====
-- internal/api/auth.go: a login starts a session that the next requests are accepted with.
use packrune.Prelude.{
  ◌+◌, ◌*◌, ◌≤◌, ◌≡◌, ◌≢◌, refl, true, false, ◌||◌, none, some, [], ◌∷◌, ◌++◌, arith, Bytes, codes,
  length, ◌==◌, All, all, lacks-All,
}
use packrune.Action.{ok}
use packrune.Database.{Database}
use packrune.Storage.Cas.Hash.{encode_hex}
use packrune.Auth.Tables.{UserRow, TokenRow, Tables, find_by, is_named, has_id}
use packrune.Auth.Secrets.{token_prefix, token_payload_bytes, hash_token}
use packrune.Auth.Service.{Token, user_of, authenticate_basic, issue_token}
use packrune.Auth.Sessions.{issue_token-authenticate_token}
use packrune.Api.Messages.{World, Credentials, Request, session, Env, Library}
use packrune.Api.{resolve_user, handle_login, hour}

module _ (lib : Library) (env : Env) where
  login_branch :
      (remote : Bytes) (c : Credentials) (random : Bytes) (u : UserRow) (t : Tables) (w : World)
      → w.auth ≡ record { tables = t; faults = [] }
      → env.random ≡ some random
      → (c.username == [] || c.password == []) ≡ false
      → find_by (is_named c.username) t.users ≡ some u
      → u.is_active ≡ true
      → lib.compare u.password_hash c.password ≡ true
      → (plain : Bytes) (k : Token)
      → let issued =
          issue_token lib.sha256
            (some random)
            env.id
            env.now
            u.id
            (codes "session")
            (codes "session" ∷ [])
            (24 * hour)
            (record { tables = t; faults = [] }) in
        issued.0 ≡ ok (plain, k)
        → let done = handle_login lib env remote (some c) w in
          (done.0 ≡ session plain (user_of u) k) × (done.1.auth ≡ issued.1)
  unfolding handle_login authenticate_basic
  login_branch remote c random u t w start drawn given found active matches plain k issued = (
    rw (given, start, found, active, matches, drawn, issued) refl,
    rw (given, start, found, active, matches, drawn, issued) refl,
  )

  -- If no statement on the tables of users and tokens fails, a user who is active logs in with a name and
  -- a password that bcrypt accepts, and neither the identifier nor the hash of the new token is in use,
  -- then the login is answered with a session, and for 24 hours a request with its cookie is taken for one
  -- of that user.
  pub handle_login-resolve_user :
      (remote : Bytes) (c : Credentials) (random : Bytes) (u : UserRow) (t : Tables) (w : World)
      (later : Env) (req : Request)
      → w.auth ≡ record { tables = t; faults = [] }
      → env.random ≡ some random
      → length random ≡ token_payload_bytes
      → (c.username == [] || c.password == []) ≡ false
      → find_by (is_named c.username) t.users ≡ some u
      → find_by (has_id u.id) t.users ≡ some u
      → u.is_active ≡ true
      → lib.compare u.password_hash c.password ≡ true
      → find_by
          (λ (r : TokenRow).
            r.id == env.id || r.hash == hash_token lib.sha256 (token_prefix ++ encode_hex random))
          t.tokens
        ≡ none
      → later.now ≤ env.now + 24 * hour
      → req.cookie ≡ some (token_prefix ++ encode_hex random)
      → let done = handle_login lib env remote (some c) w in
        (k : Token) × (done.0 ≡ session (token_prefix ++ encode_hex random) (user_of u) k)
        × ((resolve_user lib later req done.1).0 ≡ ok (user_of u))
  unfolding resolve_user
  handle_login-resolve_user remote c random u t w later req start drawn size given found known
        active matches fresh soon cookie =
      let db : Database Tables = record { tables = t; faults = [] } in
      let issued =
        issue_token-authenticate_token lib.sha256 random env.id env.now later.now (codes "session")
          (codes "session" ∷ []) (24 * hour) u u.id db refl size known active fresh plain_scope
          (λ e. ground (arith, e)) (ground (arith, soon)) in
      let plain = token_prefix ++ encode_hex random in
      let k = issued.0 in
      let done =
        login_branch remote c random u t w start drawn given found active matches plain k
          issued.1 in
      (k, done.0, rw (cookie, done.1, issued.2) refl)
    where
      plain_scope : All (λ s. All (λ x. x ≢ b',') s) (codes "session" ∷ [])
      plain_scope = (lacks-All b',' (codes "session") (unfold all in refl), tt)
