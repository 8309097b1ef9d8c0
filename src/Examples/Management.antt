-- ===== src/Examples/Management.antt =====
-- The theorems on the management API and the audit log at concrete inputs.
use packrune.Prelude.{
  count_by, ltb, ◌&&◌, ◌⊎◌, ◌+◌, List, Bool, ℕ, ◌≤◌, ◌≡◌, refl, true, false, Option, none, some, [],
  ◌∷◌, ◌++◌, arith, Bytes, codes, length, ◌==◌, has_prefix, strip_prefix?,
}
use packrune.Action.{ok}
use packrune.Storage.Cas.Hash.{encode_hex}
use packrune.Auth.Tables.{UserRow, Tables, find_by}
use packrune.Auth.Secrets.{token_prefix}
use packrune.Auth.Service.{Token, user_of}
use packrune.Audit.{Row, Log, allow, absent, page}
use packrune.Audit.Pages.{page-IsNewestFirst, IsNewestFirst, AreNewer}
use packrune.Api.Messages.{
  World, Credentials, Request, Route, create_user, me, Response, failed, session, Env, Library,
}
use packrune.Api.{resolve_user, handle_login, serve}
use packrune.Api.Access.{serve-refused, Unchanged}
use packrune.Api.Login.{handle_login-resolve_user}
use packrune.Examples.Instances.{sha256, replicate}

abbrev row : Bytes → ℕ → Row
row id at = record {
  id = id;
  user_id = none;
  action = codes "login";
  target_type = [];
  target_id = [];
  result = allow;
  metadata = codes "{}";
  remote_addr = [];
  created_at = at;
}

abbrev log : Log
log = row (codes "b") 7 ∷ row (codes "c") 9 ∷ row (codes "a") 3 ∷ []

page-IsNewestFirst_example :
    let got = page (some 8) 1 log in
    IsNewestFirst got
    × (left : List Row) × AreNewer got left
    × ((p : Row → Bool)
        → count_by p got + count_by p left ≡ count_by (λ (r : Row). ltb r.created_at 8 && p r) log)
    × (length got ≤ 1)
    × ((length got ≡ 1) ⊎ (left ≡ []))
page-IsNewestFirst_example = page-IsNewestFirst 8 1 log

abbrev user : UserRow
user = record {
  id = codes "u1";
  email = codes "a@b";
  username = codes "ann";
  display_name = codes "ann";
  password_hash = codes "hash";
  is_admin = false;
  is_active = true;
  created_at = 1;
  updated_at = 1;
}

abbrev tables : Tables
tables = record { users = user ∷ []; tokens = [] }

abbrev world : World
world = record {
  auth = record { tables = tables; faults = [] };
  hooks = record { tables = record { hooks = []; deliveries = [] }; faults = [] };
  log = record { tables = log; faults = [] };
  repos = record { repositories = []; artifacts = []; faults = [] };
}

abbrev library : Library
library = record {
  formats = (codes "npm", codes "npm registry") ∷ [];
  config = none;
  sha256 = sha256;
  generate = λ password. some (codes "hash");
  compare = λ hash password. hash == codes "hash";
  metadata = λ username. absent;
  engine = record {
    like = λ pattern s. true;
    order_by_path = λ rows. rows;
    order_by_name = λ rs. rs;
  };
}

abbrev random : Bytes
random = replicate 32 5

abbrev env : Env
env = record { now = 10; id = codes "t1"; log_id = codes "e1"; random = some random }

abbrev request : Option Bytes → Route → Request
request cookie route = record {
  cookie = cookie;
  authorization = [];
  remote_addr = [];
  route = route;
}

serve-refused_example :
    (s : ℕ) × ((serve library env (request none (create_user none)) world).0 ≡ failed s)
    × Unchanged world (serve library env (request none (create_user none)) world).1
serve-refused_example =
    serve-refused library env (request none (create_user none)) world
      (unfold resolve_user has_prefix strip_prefix? in refl)

abbrev credentials : Credentials
credentials = record { username = codes "ann"; password = codes "secret123" }

abbrev logged_in : Response × World
logged_in = handle_login library env [] (some credentials) world

handle_login-resolve_user_example :
    (k : Token) × (logged_in.0 ≡ session (token_prefix ++ encode_hex random) (user_of user) k)
    × ((resolve_user library env
          (request (some (token_prefix ++ encode_hex random)) me)
          logged_in.1).0
        ≡ ok (user_of user))
handle_login-resolve_user_example =
    handle_login-resolve_user library env [] credentials random user tables world env
      (request (some (token_prefix ++ encode_hex random)) me) refl refl refl (unfold ◌==◌ in refl)
      (unfold find_by ◌==◌ in refl) (unfold find_by ◌==◌ in refl) refl (unfold ◌==◌ in refl)
      (unfold find_by in refl) (omega arith) refl
