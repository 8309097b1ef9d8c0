-- ===== src/Auth/Secrets.antt =====
-- internal/auth/token.go and password.go: what is stored of a secret, and how a candidate is tested.
use packrune.Prelude.{
  ℕ, ◌+◌, ◌*◌, Bool, ◌&&◌, Option, none, some, ◌++◌, Bytes, codes, length, ltb, nat_eq,
  if◌then◌else◌, has_prefix,
}
use packrune.Action.{bad_name, io, Result, ok, err}
use packrune.Storage.Disk.{take}
use packrune.Storage.Cas.Hash.{encode_hex}

abbrev pub token_payload_bytes : ℕ
token_payload_bytes = 32

abbrev pub token_prefix : Bytes
token_prefix = codes "pkr_"

pub record NewToken : Type 0 where
  pub plain : Bytes
  pub hash : Bytes
  pub display_prefix : Bytes

module _ (sha256 : Bytes → Bytes) where
  -- HashToken
  unfoldable pub hash_token : Bytes → Bytes
  hash_token plain = encode_hex (sha256 plain)

  -- NewToken; `random` is what crypto/rand delivers.
  unfoldable pub new_token : Option Bytes → Result NewToken
  new_token none = err io
  new_token (some random) =
      let plain = token_prefix ++ encode_hex random in
      ok (record {
        plain = plain;
        hash = hash_token plain;
        display_prefix = take (length token_prefix + 8) plain;
      })

-- LooksLikeToken
unfoldable pub looks_like_token : Bytes → Bool
looks_like_token s =
    has_prefix s token_prefix && nat_eq (length s) (length token_prefix + 2 * token_payload_bytes)

-- HashPassword; `generate` is bcrypt.GenerateFromPassword, with its salt.
unfoldable pub hash_password : (Bytes → Option Bytes) → Bytes → Result Bytes
hash_password generate plain =
    if ltb (length plain) 8
    then err bad_name
    else if ltb 72 (length plain)
    then err bad_name
    else generated (generate plain)
  where
    generated : Option Bytes → Result Bytes
    generated none = err io
    generated (some h) = ok h
