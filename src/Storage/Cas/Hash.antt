-- ===== src/Storage/Cas/Hash.antt =====
-- encoding/hex, and what crypto/sha256 documents of a digest.
use packrune.Prelude.{
  ℕ, ◌+◌, ◌-◌, ◌*◌, ◌/◌, ◌%◌, ◌<◌, ◌≡◌, ◌≢◌, refl, Bool, true, false, ◌||◌, [], ◌∷◌, arith, Bytes,
  length, ltb, if◌then◌else◌, All, all, in_range,
}

abbrev pub hex_digit : ℕ → ℕ
hex_digit n = if ltb n 10 then b'0' + n else b'a' + (n - 10)

-- hex.EncodeToString
unfoldable pub encode_hex : Bytes → Bytes
encode_hex [] = []
encode_hex (c ∷ s) = hex_digit (c / 16) ∷ hex_digit (c % 16) ∷ encode_hex s

-- The bytes that hex.DecodeString takes.
abbrev pub is_hex : ℕ → Bool
is_hex c = in_range b'0' b'9' c || in_range b'a' b'f' c || in_range b'A' b'F' c

-- A hash of 32 bytes.
pub record IsHash (sha256 : Bytes → Bytes) : Type 0 where
  pub size : (body : Bytes) → length (sha256 body) ≡ 32
  pub bytes : (body : Bytes) → All (λ c. c < 256) (sha256 body)

-- The 16 bytes that crypto/rand delivers.
pub record IsNonce (nonce : Bytes) : Type 0 where
  pub size : length nonce ≡ 16
  pub bytes : All (λ c. c < 256) nonce

pub length-encode_hex : (s : Bytes) → length (encode_hex s) ≡ 2 * length s
unfolding encode_hex
length-encode_hex [] = refl
length-encode_hex (c ∷ s) = omega (arith, length-encode_hex s)

pub all-encode_hex : (s : Bytes) → All (λ c. c < 256) s → all is_hex (encode_hex s) ≡ true
unfolding encode_hex all
all-encode_hex [] h = refl
all-encode_hex (c ∷ s) (hc, hs) = ground (arith, all-encode_hex s hs)

-- Hexadecimal text holds no byte that the keys are cut at.
pub all-lacks : (s : Bytes) (c : ℕ) → is_hex c ≡ false → all is_hex s ≡ true → All (λ d. d ≢ c) s
unfolding all
all-lacks [] c h k = tt
all-lacks (d ∷ s) c h k = (λ e. ground (arith), all-lacks s c h (ground arith))
