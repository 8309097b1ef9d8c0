-- ===== src/Storage/Fs/CasKeys.antt =====
-- The keys of the content-addressable layer are clean paths of the filesystem backend.
use packrune.Prelude.{
  ℕ, ◌≡◌, ◌≢◌, refl, sym, ap, ◌∙◌, Bool, true, false, none, List, [], ◌∷◌, ◌++◌, append_assoc,
  append-nil, arith, Bytes, codes, eq_iff, nat_eq_iff, has_prefix, has_suffix, trim_prefix,
  strip_prefix?, strip_prefix?-append, strip_suffix?, eq_of_strip_suffix?, Option-cases, cut,
  contains, split, split-append, split_last, All, All-append, all, inl, inr,
}
use packrune.Action.{ok}
use packrune.Storage.Fs.{Root, path_text, clean_onto, join_path, resolve}
use packrune.Storage.Fs.Objects.{IsKey, key_path}
use packrune.Storage.Cas.{key_for, temp_key}
use packrune.Storage.Cas.Hash.{is_hex, encode_hex, all-lacks, IsNonce, all-encode_hex}
use packrune.Storage.Cas.Keys.{IsDigest, parts, key_for-parts}

cut-dots : (k : Bytes) → All (λ c. c ≢ b'.') k → cut k (codes "..") ≡ none
unfolding cut strip_prefix?
cut-dots [] h = refl
cut-dots (c ∷ k) (hc, hk) = ground (arith, cut-dots k hk, nat_eq_iff c b'.')

-- A path element that is kept as it is.
abbrev IsName : Bytes → Type 0
IsName e = (e ≢ []) × All (λ c. c ≢ b'.') e

clean_onto-names : (root es : List Bytes) → All IsName es → clean_onto root es ≡ root ++ es
unfolding clean_onto
clean_onto-names root [] h = sym (append-nil root)
clean_onto-names root ([] ∷ es) (h, hs) = absurd (h.0 refl)
clean_onto-names root ((c ∷ e) ∷ es) (h, hs) = ground (
  arith,
  eq_iff (c ∷ e) [],
  eq_iff (c ∷ e) (codes "."),
  eq_iff (c ∷ e) (codes ".."),
  h.1.0,
  clean_onto-names (root ++ (c ∷ e) ∷ []) es hs,
  append_assoc root ((c ∷ e) ∷ []) es,
)

path_text-append : (xs ys : List Bytes) → path_text (xs ++ ys) ≡ path_text xs ++ path_text ys
unfolding path_text
path_text-append [] ys = refl
path_text-append (x ∷ xs) ys = simp (path_text-append xs ys, append_assoc)

abbrev ends_hex : Bytes → Bool
ends_hex [] = false
ends_hex (c ∷ []) = is_hex c
ends_hex (c ∷ d ∷ s) = ends_hex (d ∷ s)

ends_hex-append : (x s : Bytes) (c : ℕ) → ends_hex (x ++ c ∷ s) ≡ ends_hex (c ∷ s)
ends_hex-append [] s c = refl
ends_hex-append (a ∷ []) s c = refl
ends_hex-append (a ∷ b ∷ x) s c = ends_hex-append (b ∷ x) s c

ends_hex-all : (c : ℕ) (s : Bytes) → all is_hex (c ∷ s) ≡ true → ends_hex (c ∷ s) ≡ true
unfolding all
ends_hex-all c [] h = ground arith
ends_hex-all c (d ∷ s) h = ends_hex-all d s (ground arith)

all-tail : (c : ℕ) (s : Bytes) → all is_hex (c ∷ s) ≡ true → all is_hex s ≡ true
unfolding all
all-tail c s h = ground arith

ends_hex-permanent : (p : Bytes) → ends_hex p ≡ true → has_suffix p (codes ".tmp") ≡ false
unfolding has_suffix
ends_hex-permanent p h = elim (Option-cases (strip_suffix? p (codes ".tmp"))) [
  | inl e ↦ rw e
  | inr (r, e) ↦ cc (
    h,
    ap (λ (q : Bytes). ends_hex q) (eq_of_strip_suffix? p (codes ".tmp") r e),
    ends_hex-append r (codes "tmp") b'.',
  )
]

-- A key that is spelled by names is clean.
resolve-names :
    (root es : List Bytes) (k : Bytes)
    → k ≢ []
    → trim_prefix k (codes "/") ≡ k
    → All (λ c. c ≢ b'.') k
    → split k b'/' ≡ es
    → All IsName es
    → path_text es ≡ b'/' ∷ k
    → resolve root k ≡ ok (key_path root k)
unfolding resolve contains join_path has_prefix
resolve-names root es k ne trimmed dots fields names spelled =
    let path : path_text (clean_onto root (split k b'/')) ≡ path_text root ++ b'/' ∷ k =
      rw (fields, clean_onto-names root es names, path_text-append root es, spelled) refl in
    rw (trimmed, cut-dots k dots, path, strip_prefix?-append (path_text root) (b'/' ∷ k))
      (ground (arith, eq_iff k []))

digest_path-clean :
    (root : Root) (a b : ℕ) (rest : Bytes)
    → all is_hex (a ∷ b ∷ rest) ≡ true
    → IsKey root (codes "blobs/sha256/" ++ a ∷ b ∷ b'/' ∷ a ∷ b ∷ rest)
unfolding trim_prefix strip_prefix? path_text
digest_path-clean root a b rest h =
    let dot = all-lacks (a ∷ b ∷ rest) b'.' refl h in
    let slash = all-lacks (a ∷ b ∷ rest) b'/' refl h in
    let hex = a ∷ b ∷ rest in
    let fan = a ∷ b ∷ [] in
    record {
      clean =
          resolve-names root (codes "blobs" ∷ codes "sha256" ∷ fan ∷ hex ∷ []) _ (cc) refl
            (All-append (λ c. c ≢ b'.') (codes "blobs/sha256/") (a ∷ b ∷ b'/' ∷ hex) (omega arith)
              (dot.0, (dot.1.0, (omega arith, dot))))
            (split-append (codes "blobs") _ b'/' (omega arith)
              ∙ ap (λ (fs : List Bytes). codes "blobs" ∷ fs)
                  (split-append (codes "sha256") _ b'/' (omega arith)
                    ∙ ap (λ (fs : List Bytes). codes "sha256" ∷ fs)
                        (split-append fan hex b'/' (slash.0, (slash.1.0, tt))
                          ∙ ap (λ (fs : List Bytes). fan ∷ fs) (split_last hex b'/' slash))))
            (
              (cc, omega arith),
              ((cc, omega arith), ((cc, (dot.0, (dot.1.0, tt))), ((cc, dot), tt))),
            )
            (simp append-nil);
      permanent =
          ends_hex-permanent _ (
            ends_hex-append (path_text root) _ b'/'
            ∙ ends_hex-all b rest (all-tail a (b ∷ rest) h));
    }

-- The key of a valid digest is a clean path: below whatever root, resolve answers the root, a slash
-- and the key, and no temporary file has such a name.
pub digest-IsKey : (root : Root) (d : Bytes) → IsDigest d → IsKey root (key_for d)
digest-IsKey root d h =
    let p = parts d h in
    rw (p.spelled, key_for-parts p.a p.b p.rest) (digest_path-clean root p.a p.b p.rest p.hex)

upload_path-clean :
    (root : Root) (c : ℕ) (hex : Bytes)
    → all is_hex (c ∷ hex) ≡ true
    → IsKey root (codes "blobs/_uploads/" ++ c ∷ hex)
unfolding trim_prefix strip_prefix? path_text
upload_path-clean root c hex h =
    let dot = all-lacks (c ∷ hex) b'.' refl h in
    let slash = all-lacks (c ∷ hex) b'/' refl h in
    record {
      clean =
          resolve-names root (codes "blobs" ∷ codes "_uploads" ∷ (c ∷ hex) ∷ []) _ (cc) refl
            (All-append (λ x. x ≢ b'.') (codes "blobs/_uploads/") (c ∷ hex) (omega arith) dot)
            (split-append (codes "blobs") _ b'/' (omega arith)
              ∙ ap (λ (fs : List Bytes). codes "blobs" ∷ fs)
                  (split-append (codes "_uploads") _ b'/' (omega arith)
                    ∙ ap (λ (fs : List Bytes). codes "_uploads" ∷ fs)
                        (split_last (c ∷ hex) b'/' slash)))
            ((cc, omega arith), ((cc, omega arith), ((cc, dot), tt))) (simp append-nil);
      permanent =
          ends_hex-permanent _ (ends_hex-append (path_text root) _ b'/' ∙ ends_hex-all c hex h);
    }

-- And so is the key that an upload is staged under.
pub upload-IsKey : (root : Root) (nonce : Bytes) → IsNonce nonce → IsKey root (temp_key nonce)
unfolding temp_key encode_hex
upload-IsKey root [] h = absurd (omega (arith, h.size))
upload-IsKey root (c ∷ nonce) h = upload_path-clean root _ _ (all-encode_hex (c ∷ nonce) h.bytes)
