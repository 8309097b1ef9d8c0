-- ===== src/Examples/Accounts.antt =====
-- The theorems on users and tokens at concrete inputs.
use packrune.Prelude.{
  ◌≡◌, ◌≢◌, refl, Bool, true, false, Option, none, some, List, [], ◌∷◌, ◌++◌, arith, Bytes, codes,
  ◌==◌, ==_refl, lacks-All, All, all, has_prefix, strip_prefix?,
}
use mathlib.Core.List.{Memᴰ}
use packrune.Action.{Result, ok, is_ok}
use packrune.Database.{Database}
use packrune.Storage.Cas.Hash.{encode_hex}
use packrune.Auth.Tables.{UserRow, TokenRow, Tables, find_by}
use packrune.Auth.Secrets.{token_prefix, hash_token, looks_like_token}
use packrune.Auth.Service.{
  Token, user_of, token_of, is_expired, with_password, authenticate_token, authenticate_basic,
  issue_token, revoke_token, deactivate_user, set_password_by_username, find_joined,
}
use packrune.Auth.Sessions.{authenticate_token-Mem, issue_token-authenticate_token, session}
use packrune.Auth.Sessions.Logout.{revoke_token-refused}
use packrune.Auth.Accounts.{
  deactivate_user-refused, answers, answers_with, calls, Spares, Call, login, new_password, create,
}
use packrune.Auth.Passwords.{set_password-effect, named}
use packrune.Examples.Instances.{sha256, replicate}

abbrev user : UserRow
user = record {
  id = codes "u1";
  email = codes "a@b";
  username = codes "ann";
  display_name = codes "ann";
  password_hash = codes "old";
  is_admin = false;
  is_active = true;
  created_at = 1;
  updated_at = 1;
}

abbrev random : Bytes
random = replicate 32 5

abbrev plain : Bytes
plain = token_prefix ++ encode_hex random

abbrev token : TokenRow
token = record {
  id = codes "t1";
  user_id = codes "u1";
  name = codes "ci";
  hash = hash_token sha256 plain;
  prefix = codes "pkr_";
  scopes = codes "read,write";
  last_used_at = none;
  expires_at = some 50;
  created_at = 3;
}

abbrev tables : Tables
tables = record { users = user ∷ []; tokens = token ∷ [] }

abbrev database : Database Tables
database = record { tables = tables; faults = [] }

abbrev no_tokens : Database Tables
no_tokens = record { tables = record { users = user ∷ []; tokens = [] }; faults = [] }

accepted : (session sha256 20 plain database).0 ≡ ok (user_of user, token_of token)
unfolding authenticate_token looks_like_token find_joined ◌==◌ find_by encode_hex hash_token
    has_prefix strip_prefix?
accepted = refl

authenticate_token-Mem_example :
    (v : UserRow) × (r : TokenRow) × Memᴰ v tables.users
    × Memᴰ r tables.tokens
    × (r.hash ≡ hash_token sha256 plain)
    × (r.user_id ≡ v.id)
    × (v.is_active ≡ true)
    × (is_expired 20 r.expires_at ≡ false)
    × (looks_like_token plain ≡ true)
    × (user_of user ≡ user_of v)
    × (token_of token ≡ token_of r)
authenticate_token-Mem_example =
    authenticate_token-Mem sha256 20 plain database (user_of user) (token_of token) accepted

abbrev issued : Result (Bytes × Token) × Database Tables
issued =
    issue_token sha256 (some random) (codes "t1") 3 (codes "u1") (codes "ci")
      (codes "read" ∷ codes "write" ∷ []) 40 no_tokens

scopes_plain : All (λ s. All (λ c. c ≢ b',') s) (codes "read" ∷ codes "write" ∷ [])
scopes_plain = (
  lacks-All b',' (codes "read") (unfold all in refl),
  (lacks-All b',' (codes "write") (unfold all in refl), tt),
)

issue_token-authenticate_token_example :
    (k : Token) × (issued.0 ≡ ok (plain, k))
    × ((authenticate_token sha256 20 plain issued.1).0 ≡ ok (user_of user, k))
    × (k.scopes ≡ codes "read" ∷ codes "write" ∷ [])
    × (k.expires_at ≡ some 43)
issue_token-authenticate_token_example =
    issue_token-authenticate_token sha256 random (codes "t1") 3 20 (codes "ci")
      (codes "read" ∷ codes "write" ∷ []) 40 user (codes "u1") no_tokens refl refl
      (unfold find_by ◌==◌ in refl) refl (unfold find_by in refl) scopes_plain
      (λ e. ground (arith, e)) refl

revoke_token-refused_example :
    is_ok
      (session sha256 30 plain (revoke_token (codes "t1") (session sha256 20 plain database).1).1).0
    ≡ false
revoke_token-refused_example =
    revoke_token-refused sha256 20 30 plain (user_of user) (token_of token) database
      (rw (==_refl (hash_token sha256 plain)) (omega arith)) accepted
      (unfold authenticate_token looks_like_token find_joined ◌==◌ find_by encode_hex hash_token
          has_prefix strip_prefix? revoke_token in
        refl)

abbrev hashed : Bytes → Option Bytes
hashed password = some (codes "new")

abbrev compared : Bytes → Bytes → Bool
compared hash password = hash == codes "new"

abbrev history : List Call
history =
    login (codes "ann") (codes "secret123")
    ∷ new_password 8 (codes "ann") (codes "secret123")
    ∷ create (codes "u2") 9 (codes "c@d") (codes "cy") (codes "secret123") false
    ∷ []

abbrev later : Database Tables
later = calls sha256 hashed compared history (deactivate_user 7 (codes "u1") database).1

deactivate_user-refused_example :
    (answers sha256 hashed compared
        (codes "u1")
        (authenticate_basic compared (codes "ann") (codes "secret123") later).0
      ≡ false)
    × (answers_with sha256 hashed compared (codes "u1") (authenticate_token sha256 20 plain later).0
        ≡ false)
deactivate_user-refused_example =
    deactivate_user-refused sha256 hashed compared (codes "u1") 7 20 (codes "ann")
      (codes "secret123") plain database history (unfold deactivate_user in refl)
      (unfold Spares ◌==◌ in (tt, (tt, (refl, tt))))

abbrev renewed : Result (Unit {0}) × Database Tables
renewed =
    set_password_by_username hashed 8 (codes "ann") (codes "secret123")
      (record { tables = tables; faults = [] })

set_password-effect_example :
    (renewed.0 ≡ ok tt)
    × ((authenticate_basic compared (codes "ann") (codes "secret123") renewed.1).0
        ≡ ok (user_of (with_password 8 (codes "new") user)))
    × (named sha256 hashed compared 8
          (codes "ann")
          (codes "secret123")
          (codes "new")
          (authenticate_token sha256 20 plain renewed.1).0
        ≡ false)
set_password-effect_example =
    set_password-effect sha256 hashed compared 8 (codes "ann") (codes "secret123") (codes "new")
      user tables 20 plain (omega arith) (omega arith) refl (unfold ◌==◌ in refl)
      (unfold find_by ◌==◌ in refl) refl
