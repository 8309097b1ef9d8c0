-- ===== src/Storage/Fs/Walked.antt =====
-- `List` of internal/storage/fs/fs.go: the keys that a walk finds, and the page that is cut from them.
use packrune.Prelude.{
  append_assoc, ℕ, zero, suc, ◌<◌, ◌≡◌, inl, inr, refl, sym, ap, ◌∙◌, true, false, List, [], ◌∷◌,
  ◌++◌, arith, Bytes, length, ◌==◌, eq_of_==, ==_append, has_prefix, trim_prefix, strip_prefix?,
  strip_prefix?-append, eq_of_strip_prefix?, is_some, is_seen, less, All, Bool-cases, Option-cases,
  search_from,
}
use packrune.Storage.Disk.{Files, find}
use packrune.Storage.Fs.Listing.{below, relative_keys, after_token, past, first_page}

pub first_page_whole :
    (n : ℕ) (last : Bytes) (ks : List Bytes)
    → length (first_page n last ks).keys < n
    → (first_page n last ks).keys ≡ ks
unfolding first_page
first_page_whole zero last ks h = absurd (omega (arith, h))
first_page_whole (suc n) last [] h = refl
first_page_whole (suc n) last (k ∷ ks) h =
    ap (λ (l : List Bytes). k ∷ l) (first_page_whole n k ks (omega (arith, h)))

trim-== : (a p k : Bytes) → has_prefix p a ≡ true → (trim_prefix p a == k) ≡ (p == a ++ k)
unfolding has_prefix trim_prefix
trim-== a p k h = elim (Option-cases (strip_prefix? p a)) [
  | inl e ↦ absurd (ground (arith, h, e))
  | inr (rest, e) ↦ rw (e, eq_of_strip_prefix? p a rest e) (sym (==_append a rest k))
]

module _ {κ} (P : Bytes → Type κ) where
  search_from-All : (token : Bytes) (ks : List Bytes) → All P ks → All P (search_from token ks)
  unfolding search_from
  search_from-All token [] h = tt
  search_from-All token (k ∷ ks) (h, hs) = elim (Bool-cases (less k token)) [
    | inl e ↦ rw e (search_from-All token ks hs)
    | inr e ↦ rw e (h, hs)
  ]

  past-All : (token : Bytes) (ks : List Bytes) → All P ks → All P (past token ks)
  past-All token [] h = tt
  past-All token (k ∷ ks) (h, hs) = elim (Bool-cases (k == token)) [
    | inl e ↦ rw e hs
    | inr e ↦ rw e (h, hs)
  ]

  pub after_token-All : (token : Bytes) (ks : List Bytes) → All P ks → All P (after_token token ks)
  unfolding after_token
  after_token-All [] ks h = h
  after_token-All (c ∷ token) ks h =
      past-All (c ∷ token) (search_from (c ∷ token) ks) (search_from-All (c ∷ token) ks h)

  pub first_page-All :
      (n : ℕ) (last : Bytes) (ks : List Bytes) → All P ks → All P (first_page n last ks).keys
  unfolding first_page
  first_page-All zero last [] h = tt
  first_page-All zero last (k ∷ ks) h = tt
  first_page-All (suc n) last [] h = tt
  first_page-All (suc n) last (k ∷ ks) (h, hs) = (h, first_page-All n k ks hs)

pub has_prefix-nil : (p : Bytes) → has_prefix p [] ≡ true
unfolding has_prefix strip_prefix?
has_prefix-nil [] = refl
has_prefix-nil (c ∷ p) = refl

pub has_prefix-append : (a b : Bytes) → has_prefix (a ++ b) a ≡ true
unfolding has_prefix
has_prefix-append a b = rw (strip_prefix?-append a b) refl

-- What stands behind a prefix.
pub behind : (s a : Bytes) → has_prefix s a ≡ true → (rest : Bytes) × (s ≡ a ++ rest)
unfolding has_prefix
behind s a h = elim (Option-cases (strip_prefix? s a)) [
  | inl e ↦ absurd (ground (arith, h, e))
  | inr (rest, e) ↦ (rest, eq_of_strip_prefix? s a rest e)
]

-- A key with the prefix, whose file is below the directory that is walked, is listed exactly if it has a file.
module _ (root prefix dir k : Bytes) (begins : has_prefix k prefix ≡ true)
    (there : has_prefix ((root ++ b'/' ∷ []) ++ k) (dir ++ b'/' ∷ []) ≡ true)
    (inside : (q : Bytes)
      → has_prefix q (dir ++ b'/' ∷ []) ≡ true
      → has_prefix q (root ++ b'/' ∷ []) ≡ true) where
  not_below :
      (p : Bytes)
      → has_prefix p (dir ++ b'/' ∷ []) ≡ false
      → (p == (root ++ b'/' ∷ []) ++ k) ≡ false
  not_below p e = elim (Bool-cases (p == (root ++ b'/' ∷ []) ++ k)) [
    | inr x ↦ x
    | inl x ↦ absurd (
        ground
          (arith, e, there, ap (λ (q : Bytes). has_prefix q (dir ++ b'/' ∷ [])) (eq_of_== _ _ x)))
  ]

  not_listed :
      (p : Bytes)
      → has_prefix p (root ++ b'/' ∷ []) ≡ true
      → has_prefix (trim_prefix p (root ++ b'/' ∷ [])) prefix ≡ false
      → (p == (root ++ b'/' ∷ []) ++ k) ≡ false
  not_listed p r e = elim (Bool-cases (p == (root ++ b'/' ∷ []) ++ k)) [
    | inr x ↦ x
    | inl x ↦
        let key =
          eq_of_== (trim_prefix p (root ++ b'/' ∷ [])) k (trim-== (root ++ b'/' ∷ []) p k r ∙ x) in
        absurd (ground (arith, e, begins, ap (λ (q : Bytes). has_prefix q prefix) key))
  ]

  pub relative_seen :
      (fs : Files)
      → is_seen k (relative_keys root prefix (below dir fs))
        ≡ is_some (find ((root ++ b'/' ∷ []) ++ k) fs)
  unfolding relative_keys below find is_seen
  relative_seen [] = refl
  relative_seen ((p, c) ∷ fs) = elim (Bool-cases (has_prefix p (dir ++ b'/' ∷ []))) [
    | inr e ↦ rw (e, not_below p e) (relative_seen fs)
    | inl e ↦
        let key = trim_prefix p (root ++ b'/' ∷ []) in
        let rooted = inside p e in
        elim (Bool-cases (has_prefix key prefix)) [
          | inr h ↦ rw (e, h, not_listed p rooted h) (relative_seen fs)
          | inl h ↦
              rw (e, h, trim-== (root ++ b'/' ∷ []) p k rooted, relative_seen fs) (ground arith)
        ]
  ]

-- What a walk lists has the prefix.
pub relative_keys-has_prefix :
    (dir prefix : Bytes) (ps : List Bytes)
    → All (λ (k : Bytes). has_prefix k prefix ≡ true) (relative_keys dir prefix ps)
unfolding relative_keys
relative_keys-has_prefix dir prefix [] = tt
relative_keys-has_prefix dir prefix (p ∷ ps) =
    elim (Bool-cases (has_prefix (trim_prefix p (dir ++ b'/' ∷ [])) prefix)) [
      | inl e ↦ rw e (e, relative_keys-has_prefix dir prefix ps)
      | inr e ↦ rw e (relative_keys-has_prefix dir prefix ps)
    ]

pub regroup :
    (a b rest : Bytes)
    → ((a ++ b'/' ∷ b) ++ b'/' ∷ []) ++ rest ≡ (a ++ b'/' ∷ []) ++ ((b ++ b'/' ∷ []) ++ rest)
regroup a b rest = ground (
  arith,
  append_assoc a (b'/' ∷ b) (b'/' ∷ []),
  append_assoc a (b'/' ∷ (b ++ b'/' ∷ [])) rest,
  append_assoc a (b'/' ∷ []) ((b ++ b'/' ∷ []) ++ rest),
)

pub inner :
    (a b q : Bytes)
    → has_prefix q ((a ++ b'/' ∷ b) ++ b'/' ∷ []) ≡ true
    → has_prefix q (a ++ b'/' ∷ []) ≡ true
inner a b q h =
    let (rest, spelled) = behind q ((a ++ b'/' ∷ b) ++ b'/' ∷ []) h in
    rw (spelled, regroup a b rest) (has_prefix-append (a ++ b'/' ∷ []) ((b ++ b'/' ∷ []) ++ rest))
