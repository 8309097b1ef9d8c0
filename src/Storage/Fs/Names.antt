-- ===== src/Storage/Fs/Names.antt =====
-- `List` of internal/storage/fs/fs.go: which keys a listing of everything has.
use packrune.Prelude.{
  append_assoc, ℕ, ◌≤◌, ◌<◌, ◌≡◌, inl, inr, refl, sym, ap, ◌∙◌, ◌⊎◌, true, List, [], ◌∷◌, ◌++◌,
  arith, Bytes, length, ◌==◌, has_prefix, trim_prefix, strip_prefix?, is_some, is_seen,
  sort_strings, sort_by-All, less, All, is_seen-sort, sort_by,
}
use mathlib.Core.Path.{subst}
use packrune.Action.{ok, ok-injective, Result-cases}
use packrune.Storage.{ListResult}
use packrune.Storage.Disk.{Disk, find, plain_call}
use packrune.Storage.Fs.{Root, path_text, resolve}
use packrune.Storage.Fs.Listing.{
  list, walk, below, relative_keys, after_token, first_page, page_limit,
}
use packrune.Storage.Fs.Walked.{
  first_page_whole, after_token-All, first_page-All, has_prefix-nil, has_prefix-append, behind,
  relative_seen, relative_keys-has_prefix, regroup, inner,
}

module _ (root : Root) where
  -- What a walk lists.
  pub walk-keys :
      (dir prefix : Bytes) (d : Disk) (ps ks : List Bytes)
      → below dir d.files ≡ ps
      → (walk (path_text root) dir prefix d).0 ≡ ok ks
      → (ks ≡ []) ⊎ (ks ≡ sort_strings (relative_keys (path_text root) prefix ps))
  unfolding walk plain_call
  walk-keys dir prefix d [] ks e h = ground (arith, e)
  walk-keys dir prefix d (p ∷ ps) ks e h = ground (arith, e)

  walk-files :
      (dir prefix : Bytes) (d : Disk) (ps : List Bytes)
      → below dir d.files ≡ ps
      → (walk (path_text root) dir prefix d).1.files ≡ d.files
  unfolding walk plain_call
  walk-files dir prefix d [] e = ground (arith, e)
  walk-files dir prefix d (p ∷ ps) e = ground (arith, e)

  walk_calm :
      (dir prefix : Bytes) (d : Disk) (ps : List Bytes)
      → d.faults ≡ []
      → below dir d.files ≡ ps
      → (walk (path_text root) dir prefix d).0
        ≡ ok (sort_strings (relative_keys (path_text root) prefix ps))
  unfolding walk plain_call relative_keys sort_by
  walk_calm dir prefix d [] h e = ground (arith, h, e)
  walk_calm dir prefix d (p ∷ ps) h e = ground (arith, h, e)

  pub list-has_prefix :
      (prefix token : Bytes) (n : ℕ) (d : Disk) (r : ListResult)
      → (list root prefix token n d).0 ≡ ok r
      → All (λ (k : Bytes). has_prefix k prefix ≡ true) r.keys
  unfolding list
  list-has_prefix prefix token n d r h = elim (Result-cases (resolve root prefix)) [
    | inr (e, p) ↦ absurd (ground arith)
    | inl (dir, p) ↦ elim (Result-cases (walk (path_text root) dir prefix d).0) [
      | inr (e, q) ↦ absurd (ground arith)
      | inl (ks, q) ↦
          let P = λ (k : Bytes). has_prefix k prefix ≡ true in
          let page = first_page (page_limit n) [] (after_token token ks) in
          let same : r ≡ page = ground arith in
          let all_ : All P ks = elim (walk-keys dir prefix d (below dir d.files) ks refl q) [
            | inl e ↦ rw e tt
            | inr e ↦ rw e (
                sort_by-All P less _
                  (relative_keys-has_prefix (path_text root) prefix (below dir d.files)))
          ] in
          rw same (
            first_page-All P (page_limit n) [] (after_token token ks)
              (after_token-All P token ks all_))
    ]
  ]

  pub list-files :
      (prefix token : Bytes) (n : ℕ) (d : Disk) → (list root prefix token n d).1.files ≡ d.files
  unfolding list
  list-files prefix token n d = elim (Result-cases (resolve root prefix)) [
    | inr (e, p) ↦ ground arith
    | inl (dir, p) ↦ ground (arith, walk-files dir prefix d (below dir d.files) refl)
  ]

  pub list_calm :
      (prefix dir : Bytes) (n : ℕ) (d : Disk)
      → resolve root prefix ≡ ok dir
      → d.faults ≡ []
      → (list root prefix [] n d).0
        ≡ ok (
            first_page
              (page_limit n)
              []
              (sort_strings (relative_keys (path_text root) prefix (below dir d.files))))
  unfolding list after_token
  list_calm prefix dir n d at_ h =
      rw at_ (ground (arith, walk_calm dir prefix d (below dir d.files) h refl))

  listed_whole :
      (prefix dir : Bytes) (n : ℕ) (d : Disk) (r : ListResult)
      → resolve root prefix ≡ ok dir
      → d.faults ≡ []
      → n ≤ 1000
      → (list root prefix [] n d).0 ≡ ok r
      → length r.keys < n
      → r.keys ≡ sort_strings (relative_keys (path_text root) prefix (below dir d.files))
  listed_whole prefix dir n d r at_ h small done few =
      let keys = sort_strings (relative_keys (path_text root) prefix (below dir d.files)) in
      let limit : page_limit n ≡ n = ground (arith, few, small) in
      let same : r ≡ first_page n [] keys =
        ok-injective (sym done ∙ list_calm prefix dir n d at_ h)
        ∙ ap (λ (x : ℕ). first_page x [] keys) limit in
      ap (λ (x : ListResult). x.keys) same
      ∙ first_page_whole n [] keys (subst (λ (x : ListResult). length x.keys < n) same few)

  pub resolve-nil : resolve root [] ≡ ok (path_text root)
  unfolding resolve trim_prefix strip_prefix? ◌==◌
  resolve-nil = refl

  module _ (n : ℕ) (k : Bytes) (d : Disk) (r : ListResult) (h : d.faults ≡ []) (small : n ≤ 1000)
      (few : length r.keys < n) where
    pub list_names :
        (list root [] [] n d).0 ≡ ok r
        → is_seen k r.keys ≡ is_some (find ((path_text root ++ b'/' ∷ []) ++ k) d.files)
    list_names done =
        let dir = path_text root in
        ap (is_seen k) (listed_whole [] dir n d r resolve-nil h small done few)
        ∙ is_seen-sort k (relative_keys dir [] (below dir d.files))
        ∙ relative_seen dir [] dir k (has_prefix-nil k) (has_prefix-append (dir ++ b'/' ∷ []) k)
            (λ q e. e) d.files

    pub list_below :
        (prefix : Bytes)
        → resolve root prefix ≡ ok (path_text root ++ b'/' ∷ prefix)
        → has_prefix k (prefix ++ b'/' ∷ []) ≡ true
        → (list root prefix [] n d).0 ≡ ok r
        → is_seen k r.keys ≡ is_some (find ((path_text root ++ b'/' ∷ []) ++ k) d.files)
    list_below prefix at_ under done =
        let dir = path_text root ++ b'/' ∷ prefix in
        let (rest, spelled) = behind k (prefix ++ b'/' ∷ []) under in
        let begins : has_prefix k prefix ≡ true =
          rw (spelled, append_assoc prefix (b'/' ∷ []) rest)
            (has_prefix-append prefix (b'/' ∷ rest)) in
        let there : has_prefix ((path_text root ++ b'/' ∷ []) ++ k) (dir ++ b'/' ∷ []) ≡ true =
          rw (spelled) (
            subst (λ (q : Bytes). has_prefix q (dir ++ b'/' ∷ []) ≡ true)
              (regroup (path_text root) prefix rest) (has_prefix-append (dir ++ b'/' ∷ []) rest)) in
        ap (is_seen k) (listed_whole prefix dir n d r at_ h small done few)
        ∙ is_seen-sort k (relative_keys (path_text root) prefix (below dir d.files))
        ∙ relative_seen (path_text root) prefix dir k begins there (inner (path_text root) prefix)
            d.files
