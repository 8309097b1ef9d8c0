-- ===== src/Gc/Files.antt =====
-- What the sweep relies on holds of the filesystem backend, while every file is named by a clean key.
use packrune.Prelude.{
  sort_by-All, ℕ, ◌≡◌, inl, inr, refl, sym, ap, ◌⊎◌, List, [], ◌∷◌, ◌++◌, arith, Bytes, ◌==◌,
  append_assoc, has_prefix, trim_prefix, strip_prefix?-append, All, Bool-cases, less,
}
use mathlib.Core.Path.{subst}
use packrune.Action.{ok, Result-cases, is_ok}
use packrune.Storage.{ListResult}
use packrune.Storage.Disk.{Files, Disk, without, read_file, remove_file}
use packrune.Storage.Fs.{Root, path_text, resolve, stat, delete}
use packrune.Storage.Fs.Listing.{
  list, walk, below, relative_keys, after_token, first_page, page_limit,
}
use packrune.Storage.Fs.Objects.{object, IsKey, key_path}
use packrune.Storage.Fs.Contract.{backend}
use packrune.Storage.Fs.Names.{walk-keys, list-files}
use packrune.Storage.Fs.Walked.{first_page-All, after_token-All}
use packrune.Gc.Safety.{IsListing}

module _ (root : Root) where
  -- The file of a key.
  pub record IsKeyed (p : Bytes) : Type 0 where
    pub key : Bytes
    pub spelled : p ≡ key_path root key
    pub named : IsKey root key

  abbrev pub AllKeyed : Files → Type 0
  AllKeyed fs = All (λ f. IsKeyed f.0) fs

  abbrev pub IsClean : Disk → Type 0
  IsClean d = AllKeyed d.files

  below-All : (dir : Bytes) (fs : Files) → AllKeyed fs → All IsKeyed (below dir fs)
  unfolding below
  below-All dir [] h = tt
  below-All dir ((p, c) ∷ fs) (h, hs) = elim (Bool-cases (has_prefix p (dir ++ b'/' ∷ []))) [
    | inl e ↦ rw e (h, below-All dir fs hs)
    | inr e ↦ rw e (below-All dir fs hs)
  ]

  trim_root : (p : Bytes) → IsKeyed p → IsKey root (trim_prefix p (path_text root ++ b'/' ∷ []))
  unfolding trim_prefix
  trim_root p h =
      rw
        (
          h.spelled,
          ← append_assoc (path_text root) (b'/' ∷ []) h.key,
          strip_prefix?-append (path_text root ++ b'/' ∷ []) h.key,
        )
        h.named

  relative_keys-All :
      (prefix : Bytes) (ps : List Bytes)
      → All IsKeyed ps
      → All (IsKey root) (relative_keys (path_text root) prefix ps)
  unfolding relative_keys
  relative_keys-All prefix [] h = tt
  relative_keys-All prefix (p ∷ ps) (h, hs) =
      elim (Bool-cases (has_prefix (trim_prefix p (path_text root ++ b'/' ∷ [])) prefix)) [
        | inl e ↦ rw e (trim_root p h, relative_keys-All prefix ps hs)
        | inr e ↦ rw e (relative_keys-All prefix ps hs)
      ]

  without-All : (q : Bytes) (fs : Files) → AllKeyed fs → AllKeyed (without q fs)
  unfolding without
  without-All q [] h = tt
  without-All q ((p, c) ∷ fs) (h, hs) = elim (Bool-cases (p == q)) [
    | inl e ↦ rw e (without-All q fs hs)
    | inr e ↦ rw e (h, without-All q fs hs)
  ]

module _ (temp_name : Disk → Bytes → Bytes) (root : Root) where
  walk-All :
      (dir prefix : Bytes) (d : Disk) (ks : List Bytes)
      → IsClean root d
      → (walk (path_text root) dir prefix d).0 ≡ ok ks
      → All (IsKey root) ks
  walk-All dir prefix d ks c h = elim (walk-keys root dir prefix d (below dir d.files) ks refl h) [
    | inl e ↦ rw e tt
    | inr e ↦ rw e (
        sort_by-All (IsKey root) less _
          (relative_keys-All root prefix (below dir d.files) (below-All root dir d.files c)))
  ]

  list-All :
      (prefix token : Bytes) (n : ℕ) (d : Disk) (r : ListResult)
      → IsClean root d
      → (list root prefix token n d).0 ≡ ok r
      → All (IsKey root) r.keys
  unfolding list
  list-All prefix token n d r c h = elim (Result-cases (resolve root prefix)) [
    | inr (e, p) ↦ absurd (ground arith)
    | inl (dir, p) ↦ elim (Result-cases (walk (path_text root) dir prefix d).0) [
      | inr (e, q) ↦ absurd (ground arith)
      | inl (ks, q) ↦
          let page = first_page (page_limit n) [] (after_token token ks) in
          let same : r ≡ page = ground arith in
          rw same (
            first_page-All (IsKey root) (page_limit n) [] (after_token token ks)
              (after_token-All (IsKey root) token ks (walk-All dir prefix d ks c q)))
    ]
  ]

  stat-files : (k : Bytes) (d : Disk) → (stat root k d).1.files ≡ d.files
  unfolding stat read_file
  stat-files k d = ground arith

  delete-files :
      (k : Bytes) (d : Disk)
      → ((delete root k d).1.files ≡ d.files)
        ⊎ ((p : Bytes) × ((delete root k d).1.files ≡ without p d.files))
  unfolding delete remove_file
  delete-files k d = elim (Result-cases (resolve root k)) [
    | inr (e, p) ↦ inl (ground arith)
    | inl (p, q) ↦ elim (Bool-cases (is_ok (remove_file p d).0)) [
      | inl e ↦ inr (p, ground arith)
      | inr e ↦ inl (ground arith)
    ]
  ]

  -- The files of the backend are listed under clean keys, and the sweep leaves only such files.
  pub fs-IsListing : IsListing (backend temp_name root) (object root) (IsKey root) (IsClean root)
  fs-IsListing = record {
    keys = list-All;
    list_at = λ prefix token n j d.
        unfold object in
        ap (λ (fs : Files). object root (record { files = fs; faults = [] }) j)
          (list-files root prefix token n d);
    list_clean =
        λ prefix token n d c. subst (AllKeyed root) (sym (list-files root prefix token n d)) c;
    stat_clean = λ k d c. subst (AllKeyed root) (sym (stat-files k d)) c;
    delete_clean = λ k d c. elim (delete-files k d) [
      | inl e ↦ subst (AllKeyed root) (sym e) c
      | inr (p, e) ↦ subst (AllKeyed root) (sym e) (without-All root p d.files c)
    ];
  }
