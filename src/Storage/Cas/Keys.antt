-- ===== src/Storage/Cas/Keys.antt =====
-- The keys of digests: no two valid digests share one, and no upload is staged under one.
use packrune.Prelude.{
  ℕ, ◌≡◌, refl, true, false, [], ◌∷◌, ◌++◌, arith, Bytes, codes, length, ◌==◌, has_prefix,
  trim_prefix, strip_prefix?, strip_prefix?-append, eq_of_strip_prefix?, cut, all, Option-cases,
  inl, inr,
}
use packrune.Storage.Cas.{key_for, digest_prefix, validate_digest, temp_key, digest_of}
use packrune.Storage.Cas.Hash.{IsHash, is_hex, encode_hex, length-encode_hex, all-encode_hex}

abbrev pub IsDigest : Bytes → Type 0
IsDigest d = validate_digest d ≡ true

-- A valid digest, taken apart: the first two hexadecimal digits and the others.
pub record Parts (d : Bytes) : Type 0 where
  pub a : ℕ
  pub b : ℕ
  pub rest : Bytes
  pub spelled : d ≡ digest_prefix ++ a ∷ b ∷ rest
  pub hex : all is_hex (a ∷ b ∷ rest) ≡ true
  pub size : length rest ≡ 62

Parts-of_hex :
    (d hex : Bytes) → d ≡ digest_prefix ++ hex → length hex ≡ 64 → all is_hex hex ≡ true → Parts d
Parts-of_hex d [] e l h = absurd (omega arith)
Parts-of_hex d (a ∷ []) e l h = absurd (omega arith)
Parts-of_hex d (a ∷ b ∷ rest) e l h = record {
  a = a;
  b = b;
  rest = rest;
  spelled = e;
  hex = h;
  size = omega arith;
}

pub parts : (d : Bytes) → IsDigest d → Parts d
unfolding validate_digest has_prefix trim_prefix
parts d h = elim (Option-cases (strip_prefix? d digest_prefix)) [
  | inl e ↦ absurd (ground arith)
  | inr (hex, e) ↦
      Parts-of_hex d hex (eq_of_strip_prefix? d digest_prefix hex e) (ground arith) (ground arith)
]

pub key_for-parts :
    (a b : ℕ) (rest : Bytes)
    → key_for (digest_prefix ++ a ∷ b ∷ rest) ≡ codes "blobs/sha256/" ++ a ∷ b ∷ b'/' ∷ a ∷ b ∷ rest
unfolding key_for cut strip_prefix?
key_for-parts a b rest = refl

pub digest_of-IsDigest :
    {sha256 : Bytes → Bytes} → IsHash sha256 → (body : Bytes) → IsDigest (digest_of sha256 body)
unfolding validate_digest has_prefix trim_prefix digest_of
digest_of-IsDigest {sha256} h body =
    rw (strip_prefix?-append digest_prefix (encode_hex (sha256 body))) (
      ground (
        arith,
        length-encode_hex (sha256 body),
        h.size body,
        all-encode_hex (sha256 body) (h.bytes body),
      ))

-- Two valid digests have one key only if they are one digest.
pub key_for-eq : (d e : Bytes) → IsDigest d → IsDigest e → (key_for d == key_for e) ≡ (d == e)
unfolding ◌==◌
key_for-eq d e hd he =
    let p = parts d hd in
    let q = parts e he in
    rw (p.spelled, q.spelled, key_for-parts p.a p.b p.rest, key_for-parts q.a q.b q.rest)
      (ground arith)

-- An upload is staged under no digest's key.
pub temp_key-ne : (nonce d : Bytes) → IsDigest d → (temp_key nonce == key_for d) ≡ false
unfolding ◌==◌ temp_key
temp_key-ne nonce d h = let p = parts d h in rw (p.spelled, key_for-parts p.a p.b p.rest)
