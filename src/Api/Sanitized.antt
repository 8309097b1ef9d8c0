-- ===== src/Api/Sanitized.antt =====
-- internal/api/system.go: the configuration without its secrets.
use packrune.Prelude.{
  ◌≡◌, refl, [], ◌∷◌, ◌++◌, arith, Bytes, codes, length, ◌==◌, leb, if◌then◌else◌,
}
use packrune.Storage.Disk.{take}
use packrune.Config.{Config}

abbrev pub redacted : Bytes
redacted = codes "[redacted]"

-- redact, with the ellipsis in UTF-8
unfoldable pub redact : Bytes → Bytes
redact s =
    if s == []
    then []
    else if leb (length s) 8
    then redacted
    else take 4 s ++ (0xE2 ∷ 0x80 ∷ 0xA6 ∷ redacted)

-- What handleSystemConfig answers of a configuration
abbrev pub sanitized : Config → Config
sanitized c = record c {
  auth = record c.auth { token_secret = redact c.auth.token_secret };
  storage = record c.storage {
    s3 = record c.storage.s3 { secret_key = redact c.storage.s3.secret_key };
  };
  database = record c.database { dsn = redact c.database.dsn };
}

-- A configuration with other secrets.
abbrev pub with_secrets : Bytes → Bytes → Bytes → Config → Config
with_secrets token_secret secret_key dsn c = record c {
  auth = record c.auth { token_secret = token_secret };
  storage = record c.storage { s3 = record c.storage.s3 { secret_key = secret_key } };
  database = record c.database { dsn = dsn };
}

-- Nothing of a text shows but its first four bytes and whether it is empty, short or long.
pub record IsAlike (s t : Bytes) : Type 0 where
  pub empty : (s == []) ≡ (t == [])
  pub short : leb (length s) 8 ≡ leb (length t) 8
  pub start : take 4 s ≡ take 4 t

redact-IsAlike : (s t : Bytes) → IsAlike s t → redact s ≡ redact t
unfolding redact
redact-IsAlike s t a = ground (arith, a.empty, a.short, a.start)

-- The answer does not depend on the token secret, the secret key and the data source beyond their first
-- four bytes and whether they are empty, of at most eight bytes, or longer.
pub sanitized-IsAlike :
    (secret key dsn secret' key' dsn' : Bytes) (c : Config)
    → IsAlike secret secret'
    → IsAlike key key'
    → IsAlike dsn dsn'
    → sanitized (with_secrets secret key dsn c) ≡ sanitized (with_secrets secret' key' dsn' c)
sanitized-IsAlike secret key dsn secret' key' dsn' c s k d =
    rw (redact-IsAlike secret secret' s, redact-IsAlike key key' k, redact-IsAlike dsn dsn' d) refl
