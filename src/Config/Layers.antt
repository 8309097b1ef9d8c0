-- ===== src/Config/Layers.antt =====
-- internal/config/config.go: what holds of a configuration that was loaded.
use packrune.Prelude.{
  ◌≡◌, ◌≢◌, ◌⊎◌, inl, inr, refl, Bool, true, false, ◌||◌, Option, [], arith, Bytes, codes, ◌==◌,
  ==_refl, eq_of_==, ap, if◌then◌else◌, or_else, Bool-cases,
}
use packrune.Action.{
  Error, not_found, invalid_key, io, bad_digest, digest_mismatch, bad_name, bad_kind, unauthorized,
  Result, ok, err, is_ok, Result-cases,
}
use packrune.Config.{defaults, from_file, Config, apply_env, validate, load}

-- A configuration that the server can start with.
pub record IsValid (c : Config) : Type 0 where
  pub addr : c.server.addr ≢ []
  pub driver : (c.database.driver ≡ codes "sqlite") ⊎ (c.database.driver ≡ codes "postgres")
  pub dsn : c.database.dsn ≢ []
  pub backend :
      ((c.storage.backend ≡ codes "fs") × (c.storage.fs.root ≢ []))
      ⊎ ((c.storage.backend ≡ codes "s3") × (c.storage.s3.bucket ≢ []))
  pub level :
      ((c.log.level ≡ codes "debug") ⊎ (c.log.level ≡ codes "info"))
      ⊎ ((c.log.level ≡ codes "warn") ⊎ (c.log.level ≡ codes "error"))
  pub format : (c.log.format ≡ codes "text") ⊎ (c.log.format ≡ codes "json")

one_of : (s a b : Bytes) → (s == a || s == b) ≡ true → (s ≡ a) ⊎ (s ≡ b)
one_of s a b h = elim (Bool-cases (s == a)) [
  | inl e ↦ inl (eq_of_== s a e)
  | inr e ↦ inr (eq_of_== s b (ground (arith, e, h)))
]

filled : (s : Bytes) → (s == []) ≡ false → s ≢ []
filled s h e = ground (arith, h, e, ==_refl [])

-- Validate accepts valid configurations only.
pub validate-IsValid : (c : Config) → is_ok (validate c) ≡ true → IsValid c
unfolding validate
validate-IsValid c h =
    let l = c.log.level in
    let b = c.storage.backend in
    record {
      addr = filled c.server.addr (ground (arith, h));
      driver = one_of c.database.driver (codes "sqlite") (codes "postgres") (ground (arith, h));
      dsn = filled c.database.dsn (ground (arith, h));
      backend = elim (Bool-cases (b == codes "fs")) [
        | inl e ↦ inl (eq_of_== b (codes "fs") e, filled c.storage.fs.root (ground (arith, h, e)))
        | inr e ↦
            let s3 : (b == codes "s3") ≡ true = ground (arith, h, e) in
            inr (eq_of_== b (codes "s3") s3, filled c.storage.s3.bucket (ground (arith, h, s3)))
      ];
      level = elim (Bool-cases (l == codes "debug" || l == codes "info")) [
        | inl e ↦ inl (one_of l (codes "debug") (codes "info") e)
        | inr e ↦ inr (one_of l (codes "warn") (codes "error") (ground (arith, h, e)))
      ];
      format = one_of c.log.format (codes "text") (codes "json") (ground (arith, h));
    }

-- The layers of a configuration: the environment over the file, and the file over the defaults.
pub record IsLayered (env : Bytes → Option Bytes) (base c : Config) : Type 0 where
  pub addr : c.server.addr ≡ or_else (env (codes "PACKRUNE_SERVER_ADDR")) base.server.addr
  pub external_url :
      c.server.external_url
      ≡ or_else (env (codes "PACKRUNE_SERVER_EXTERNAL_URL")) base.server.external_url
  pub driver :
      c.database.driver ≡ or_else (env (codes "PACKRUNE_DATABASE_DRIVER")) base.database.driver
  pub dsn : c.database.dsn ≡ or_else (env (codes "PACKRUNE_DATABASE_DSN")) base.database.dsn
  pub backend :
      c.storage.backend ≡ or_else (env (codes "PACKRUNE_STORAGE_BACKEND")) base.storage.backend
  pub root :
      c.storage.fs.root ≡ or_else (env (codes "PACKRUNE_STORAGE_FS_ROOT")) base.storage.fs.root
  pub bucket :
      c.storage.s3.bucket
      ≡ or_else (env (codes "PACKRUNE_STORAGE_S3_BUCKET")) base.storage.s3.bucket
  pub endpoint :
      c.storage.s3.endpoint
      ≡ or_else (env (codes "PACKRUNE_STORAGE_S3_ENDPOINT")) base.storage.s3.endpoint
  pub region :
      c.storage.s3.region
      ≡ or_else (env (codes "PACKRUNE_STORAGE_S3_REGION")) base.storage.s3.region
  pub access_key :
      c.storage.s3.access_key
      ≡ or_else (env (codes "PACKRUNE_STORAGE_S3_ACCESS_KEY")) base.storage.s3.access_key
  pub secret_key :
      c.storage.s3.secret_key
      ≡ or_else (env (codes "PACKRUNE_STORAGE_S3_SECRET_KEY")) base.storage.s3.secret_key
  pub secret :
      c.auth.token_secret
      ≡ or_else (env (codes "PACKRUNE_AUTH_TOKEN_SECRET")) base.auth.token_secret
  pub level : c.log.level ≡ or_else (env (codes "PACKRUNE_LOG_LEVEL")) base.log.level
  pub format : c.log.format ≡ or_else (env (codes "PACKRUNE_LOG_FORMAT")) base.log.format

module _ (read_file : Bytes → Result Bytes) (unmarshal : Bytes → Config → Result Config)
    (path : Bytes) (required : Bool) where
  -- What the environment is put over: the file over the defaults, or the defaults alone if no path is given
  -- or a file that is not required is not there.
  abbrev pub IsBase : Config → Type 0
  IsBase base =
      ((base ≡ defaults) × ((path ≡ []) ⊎ ((read_file path ≡ err not_found) × (required ≡ false))))
      ⊎ ((text : Bytes) × (read_file path ≡ ok text) × (unmarshal text defaults ≡ ok base))

  abbrev base_of : Result Config
  base_of = if path == [] then ok defaults else from_file unmarshal required (read_file path)

  from_file-IsBase :
      (base : Config) → from_file unmarshal required (read_file path) ≡ ok base → IsBase base
  from_file-IsBase base h = elim (Result-cases (read_file path)) [
    | inl (text, e) ↦ inr (text, e, ground (arith, h, e))
    | inr (x, e) ↦ without_file x e
  ]
    where
      without_file : (x : Error) → read_file path ≡ err x → IsBase base
      without_file not_found e = inl (ground (arith, h, e), inr (e, ground (arith, h, e)))
      without_file invalid_key e = absurd (ground (arith, h, e))
      without_file io e = absurd (ground (arith, h, e))
      without_file bad_digest e = absurd (ground (arith, h, e))
      without_file digest_mismatch e = absurd (ground (arith, h, e))
      without_file bad_name e = absurd (ground (arith, h, e))
      without_file bad_kind e = absurd (ground (arith, h, e))
      without_file unauthorized e = absurd (ground (arith, h, e))

  base_of-IsBase : (base : Config) → base_of ≡ ok base → IsBase base
  base_of-IsBase base h = elim (Bool-cases (path == [])) [
    | inl e ↦ inl (ground (arith, h, e), inl (eq_of_== path [] e))
    | inr e ↦ from_file-IsBase base (ground (arith, h, e))
  ]

apply_env-IsLayered : (env : Bytes → Option Bytes) (c : Config) → IsLayered env c (apply_env env c)
unfolding apply_env
apply_env-IsLayered env c = record {
  addr = refl;
  external_url = refl;
  driver = refl;
  dsn = refl;
  backend = refl;
  root = refl;
  bucket = refl;
  endpoint = refl;
  region = refl;
  access_key = refl;
  secret_key = refl;
  secret = refl;
  level = refl;
  format = refl;
}

-- A configuration that is loaded is valid, and each of its texts is what the environment sets, or else what
-- the file makes of the defaults; the defaults alone stand below the environment if no path is given, or if
-- the file is not there and is not required.
pub load-IsValid :
    (read_file : Bytes → Result Bytes) (unmarshal : Bytes → Config → Result Config)
    (env : Bytes → Option Bytes) (path : Bytes) (required : Bool) (c : Config)
    → load read_file unmarshal env path required ≡ ok c
    → IsValid c
      × (base : Config) × IsBase read_file unmarshal path required base
      × IsLayered env base c
unfolding load
load-IsValid read_file unmarshal env path required c h =
    elim (Result-cases (base_of read_file unmarshal path required)) [
      | inr (x, e) ↦ absurd (ground (arith, h, e))
      | inl (base, e) ↦ elim (Result-cases (validate (apply_env env base))) [
        | inr (x, k) ↦ absurd (ground (arith, h, e, k))
        | inl (u, k) ↦
            let same : c ≡ apply_env env base = ground (arith, h, e, k) in
            rw same (
              validate-IsValid (apply_env env base) (ap (λ (r : Result (Unit {0})). is_ok r) k),
              base,
              base_of-IsBase read_file unmarshal path required base e,
              apply_env-IsLayered env base,
            )
      ]
    ]
