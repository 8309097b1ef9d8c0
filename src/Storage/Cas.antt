-- ===== src/Storage/Cas.antt =====
-- internal/storage/cas/cas.go: objects keyed by the SHA-256 digest of their content.
pub mod Hash
pub mod Keys
pub mod Addressed
use packrune.Prelude.{
  ℕ, zero, suc, ◌+◌, ◌≡◌, Bool, true, false, ◌&&◌, ◌||◌, Option, none, some, List, [], ◌∷◌, ◌++◌,
  Bytes, codes, length, ◌==◌, ltb, leb, nat_eq, if◌then◌else◌, has_prefix, trim_prefix, Split, cut,
  all,
}
use packrune.Action.{Error, bad_digest, Result, ok, err, Action, ◌>>=◌, ◌>>◌, pure, raise, attempt}
use packrune.Storage.{Backend}
use Hash.{encode_hex, is_hex}

abbrev key_of_parts : Bytes → Option Split → Bytes
key_of_parts digest none = codes "blobs/unknown/" ++ digest
key_of_parts digest (some (alg, [])) = codes "blobs/unknown/" ++ digest
key_of_parts digest (some (alg, a ∷ [])) = codes "blobs/unknown/" ++ digest
key_of_parts digest (some (alg, a ∷ b ∷ hex)) =
    codes "blobs/" ++ (alg ++ (b'/' ∷ a ∷ b ∷ b'/' ∷ a ∷ b ∷ hex))

-- "sha256:abcdef..." is kept at "blobs/sha256/ab/abcdef...".
unfoldable pub key_for : Bytes → Bytes
key_for digest = key_of_parts digest (cut digest (codes ":"))

abbrev pub digest_prefix : Bytes
digest_prefix = codes "sha256:"

unfoldable pub validate_digest : Bytes → Bool
validate_digest d =
    has_prefix d digest_prefix
    && (nat_eq (length (trim_prefix d digest_prefix)) 64
        && all is_hex (trim_prefix d digest_prefix))

-- The key under which a body is written before its digest is known; `nonce` is what crypto/rand
-- delivers.
unfoldable pub temp_key : Bytes → Bytes
temp_key nonce = codes "blobs/_uploads/" ++ encode_hex nonce

-- `sha256` is the hash function of crypto/sha256.
unfoldable pub digest_of : (Bytes → Bytes) → Bytes → Bytes
digest_of sha256 body = digest_prefix ++ encode_hex (sha256 body)

module _ {S : Type 0} (sha256 : Bytes → Bytes) (b : Backend S) where
  -- The bytes of the temporary object go on to the final key.
  abbrev move_to : Bytes → Bytes → Action S ℕ
  move_to temp final = do body ← b.get temp; b.put final body

  abbrev finish : Bytes → Bytes → ℕ → Result ℕ → Action S (Bytes × ℕ)
  finish temp digest n (ok _) = do _ ← attempt (b.delete temp); pure (digest, n)
  finish temp digest n (err _) = do
    move_to temp (key_for digest)
    _ ← attempt (b.delete temp)
    pure (digest, n)

  unfoldable pub put : Bytes → Bytes → Action S (Bytes × ℕ)
  put nonce body = do
    let temp = temp_key nonce
    n ← b.put temp body
    let digest = digest_of sha256 body
    found ← attempt (b.stat (key_for digest))
    finish temp digest n found

module _ {S : Type 0} (b : Backend S) where
  unfoldable pub get : Bytes → Action S Bytes
  get digest s = if validate_digest digest then b.get (key_for digest) s else (err bad_digest, s)

  unfoldable pub stat : Bytes → Action S ℕ
  stat digest s = if validate_digest digest then b.stat (key_for digest) s else (err bad_digest, s)

  unfoldable pub delete : Bytes → Action S (Unit {0})
  delete digest s =
      if validate_digest digest then b.delete (key_for digest) s else (err bad_digest, s)
