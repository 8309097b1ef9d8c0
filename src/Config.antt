-- ===== src/Config.antt =====
-- internal/config/config.go: the configuration, its layers and its checks.
pub mod Layers
use packrune.Prelude.{
  ℕ, Bool, true, false, not, ◌&&◌, ◌||◌, Option, none, some, [], ◌++◌, Bytes, codes, ◌==◌, or_else,
  if◌then◌else◌,
}
use packrune.Action.{Error, not_found, io, Result, ok, err}
use packrune.Numbers.{ℤ, pos, parse_int}

pub record ServerConfig : Type 0 where
  pub addr : Bytes
  pub external_url : Bytes
  pub read_timeout : ℤ
  pub write_timeout : ℤ

pub record DatabaseConfig : Type 0 where
  pub driver : Bytes
  pub dsn : Bytes
  pub max_open_conns : ℤ
  pub max_idle_conns : ℤ

pub record FsConfig : Type 0 where
  pub root : Bytes

pub record S3Config : Type 0 where
  pub endpoint : Bytes
  pub bucket : Bytes
  pub region : Bytes
  pub access_key : Bytes
  pub secret_key : Bytes
  pub use_path : Bool

pub record StorageConfig : Type 0 where
  pub backend : Bytes
  pub fs : FsConfig
  pub s3 : S3Config

pub record AuthConfig : Type 0 where
  pub token_secret : Bytes
  pub session_ttl : ℤ
  pub allow_signup : Bool

pub record LogConfig : Type 0 where
  pub level : Bytes
  pub format : Bytes

pub record Config : Type 0 where
  pub server : ServerConfig
  pub database : DatabaseConfig
  pub storage : StorageConfig
  pub auth : AuthConfig
  pub log : LogConfig

-- Defaults
abbrev pub defaults : Config
defaults = record {
  server = record {
    addr = codes ":8080";
    external_url = codes "http://localhost:8080";
    read_timeout = pos 60;
    write_timeout = pos 0;
  };
  database = record {
    driver = codes "sqlite";
    dsn = codes "data/packrune.db";
    max_open_conns = pos 25;
    max_idle_conns = pos 5;
  };
  storage = record {
    backend = codes "fs";
    fs = record { root = codes "data/storage" };
    s3 = record {
      endpoint = [];
      bucket = [];
      region = [];
      access_key = [];
      secret_key = [];
      use_path = false;
    };
  };
  auth = record { token_secret = []; session_ttl = pos 24; allow_signup = false };
  log = record { level = codes "info"; format = codes "text" };
}

-- strconv.ParseBool
unfoldable pub parse_bool : Bytes → Option Bool
parse_bool s =
    if s == codes "1"
      || s == codes "t"
      || s == codes "T"
      || s == codes "true"
      || s == codes "TRUE"
      || s == codes "True"
    then some true
    else if s == codes "0"
        || s == codes "f"
        || s == codes "F"
        || s == codes "false"
        || s == codes "FALSE"
        || s == codes "False"
    then some false
    else none

abbrev or_int : ℤ → Result ℤ → ℤ
or_int old (ok n) = n
or_int old (err e) = old

-- setFieldFromString for a variable that may be set, by the kind of the field
abbrev pub set_string : Option Bytes → Bytes → Bytes
set_string v old = or_else v old

abbrev pub set_int : Option Bytes → ℤ → ℤ
set_int none old = old
set_int (some s) old = or_int old (parse_int s)

abbrev pub set_bool : Option Bytes → Bool → Bool
set_bool none old = old
set_bool (some s) old = or_else (parse_bool s) old

-- `env` is os.LookupEnv.
module _ (env : Bytes → Option Bytes) where
  abbrev apply_server : ServerConfig → ServerConfig
  apply_server c = record {
    addr = set_string (env (codes "PACKRUNE_SERVER_ADDR")) c.addr;
    external_url = set_string (env (codes "PACKRUNE_SERVER_EXTERNAL_URL")) c.external_url;
    read_timeout = set_int (env (codes "PACKRUNE_SERVER_READ_TIMEOUT")) c.read_timeout;
    write_timeout = set_int (env (codes "PACKRUNE_SERVER_WRITE_TIMEOUT")) c.write_timeout;
  }

  abbrev apply_database : DatabaseConfig → DatabaseConfig
  apply_database c = record {
    driver = set_string (env (codes "PACKRUNE_DATABASE_DRIVER")) c.driver;
    dsn = set_string (env (codes "PACKRUNE_DATABASE_DSN")) c.dsn;
    max_open_conns = set_int (env (codes "PACKRUNE_DATABASE_MAX_OPEN_CONNS")) c.max_open_conns;
    max_idle_conns = set_int (env (codes "PACKRUNE_DATABASE_MAX_IDLE_CONNS")) c.max_idle_conns;
  }

  abbrev apply_s3 : S3Config → S3Config
  apply_s3 c = record {
    endpoint = set_string (env (codes "PACKRUNE_STORAGE_S3_ENDPOINT")) c.endpoint;
    bucket = set_string (env (codes "PACKRUNE_STORAGE_S3_BUCKET")) c.bucket;
    region = set_string (env (codes "PACKRUNE_STORAGE_S3_REGION")) c.region;
    access_key = set_string (env (codes "PACKRUNE_STORAGE_S3_ACCESS_KEY")) c.access_key;
    secret_key = set_string (env (codes "PACKRUNE_STORAGE_S3_SECRET_KEY")) c.secret_key;
    use_path = set_bool (env (codes "PACKRUNE_STORAGE_S3_USE_PATH")) c.use_path;
  }

  abbrev apply_storage : StorageConfig → StorageConfig
  apply_storage c = record {
    backend = set_string (env (codes "PACKRUNE_STORAGE_BACKEND")) c.backend;
    fs = record { root = set_string (env (codes "PACKRUNE_STORAGE_FS_ROOT")) c.fs.root };
    s3 = apply_s3 c.s3;
  }

  abbrev apply_auth : AuthConfig → AuthConfig
  apply_auth c = record {
    token_secret = set_string (env (codes "PACKRUNE_AUTH_TOKEN_SECRET")) c.token_secret;
    session_ttl = set_int (env (codes "PACKRUNE_AUTH_SESSION_TTL")) c.session_ttl;
    allow_signup = set_bool (env (codes "PACKRUNE_AUTH_ALLOW_SIGNUP")) c.allow_signup;
  }

  abbrev apply_log : LogConfig → LogConfig
  apply_log c = record {
    level = set_string (env (codes "PACKRUNE_LOG_LEVEL")) c.level;
    format = set_string (env (codes "PACKRUNE_LOG_FORMAT")) c.format;
  }

  -- applyEnv, field by field
  unfoldable pub apply_env : Config → Config
  apply_env c = record {
    server = apply_server c.server;
    database = apply_database c.database;
    storage = apply_storage c.storage;
    auth = apply_auth c.auth;
    log = apply_log c.log;
  }

-- Validate
unfoldable pub validate : Config → Result (Unit {0})
validate c =
    if c.server.addr == []
    then err io
    else if not (c.database.driver == codes "sqlite" || c.database.driver == codes "postgres")
    then err io
    else if c.database.dsn == []
    then err io
    else if not (c.storage.backend == codes "fs" || c.storage.backend == codes "s3")
    then err io
    else if c.storage.backend == codes "fs" && c.storage.fs.root == []
    then err io
    else if c.storage.backend == codes "s3" && c.storage.s3.bucket == []
    then err io
    else if not (
        c.log.level == codes "debug"
        || c.log.level == codes "info"
        || c.log.level == codes "warn"
        || c.log.level == codes "error")
    then err io
    else if not (c.log.format == codes "text" || c.log.format == codes "json")
    then err io
    else ok tt

abbrev checked : Config → Result (Unit {0}) → Result Config
checked c (ok u) = ok c
checked c (err e) = err e

abbrev overridden : (Bytes → Option Bytes) → Result Config → Result Config
overridden env (err e) = err e
overridden env (ok c) = checked (apply_env env c) (validate (apply_env env c))

abbrev pub from_file : (Bytes → Config → Result Config) → Bool → Result Bytes → Result Config
from_file unmarshal required (ok data_) = unmarshal data_ defaults
from_file unmarshal required (err e) = elim e [
  | not_found ↦ if required then err not_found else ok defaults
  | f ↦ err f
]

-- Load; `read_file` is os.ReadFile at the path, and `unmarshal` yaml.Unmarshal.
unfoldable pub load :
    (Bytes → Result Bytes)
    → (Bytes → Config → Result Config)
    → (Bytes → Option Bytes)
    → Bytes
    → Bool
    → Result Config
load read_file unmarshal env path required =
    overridden env
      (if path == [] then ok defaults else from_file unmarshal required (read_file path))
