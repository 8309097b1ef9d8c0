-- ===== src/Storage/Fs/Objects.antt =====
-- internal/storage/fs/fs.go: the objects under clean keys, and what Get, Stat, Append and List do to them.
use packrune.Prelude.{
  ℕ, ◌≡◌, inl, inr, refl, ap, ◌∙◌, Bool, true, false, Option, none, some, List, [], ◌∷◌, ◌++◌,
  arith, Bytes, codes, length, ◌==◌, ==_append, has_suffix, Option-cases, ◌≤◌, ◌<◌, or_else,
  is_seen, is_some, has_prefix, ==_refl, append_assoc,
}
use packrune.Action.{not_found, Result, ok, err}
use packrune.Storage.{ListResult}
use packrune.Storage.Disk.{
  Disk, Files, store, find-store, create_file, copy_to, content, find, read_file, plain_call,
}
use packrune.Storage.Fs.{Root, path_text, resolve, get, append, stat}
use packrune.Storage.Fs.Listing.{list}
use packrune.Storage.Fs.Names.{list-files, list_names, list_below}
use packrune.Storage.Fs.Keeps.{append-Keeps}

abbrev is_nil {ℓ} : {A : Type ℓ} → List A → Bool
is_nil [] = true
is_nil (x ∷ xs) = false

pub nil_of {ℓ} : {A : Type ℓ} (xs : List A) → is_nil xs ≡ true → xs ≡ []
nil_of [] h = refl
nil_of (x ∷ xs) h = cc

-- No call to come will fail.
abbrev pub no_faults : Disk → Bool
no_faults d = is_nil d.faults

module _ (root : Root) where
  abbrev content_at : Disk → Result Bytes → Option Bytes
  content_at d (ok p) = content d p
  content_at d (err e) = none

  unfoldable pub object : Disk → Bytes → Option Bytes
  object d k = content_at d (resolve root k)

  abbrev pub key_path : Bytes → Bytes
  key_path k = path_text root ++ b'/' ∷ k

  -- A clean key, which is no name of a temporary file.
  pub record IsKey (k : Bytes) : Type 0 where
    pub clean : resolve root k ≡ ok (key_path k)
    pub permanent : has_suffix (key_path k) (codes ".tmp") ≡ false

  pub key_path-eq : (k j : Bytes) → (key_path k == key_path j) ≡ (k == j)
  key_path-eq k j = ==_append (path_text root) (b'/' ∷ k) (b'/' ∷ j) ∙ ==_append (b'/' ∷ []) k j

module _ (root : Root) where
  pub get_ok : (k c : Bytes) (d : Disk) → (get root k d).0 ≡ ok c → object root d k ≡ some c
  unfolding get object read_file plain_call
  get_ok k c d h = ground arith

  pub get_missing :
      (k : Bytes) (d : Disk) → (get root k d).0 ≡ err not_found → object root d k ≡ none
  unfolding get object read_file plain_call
  get_missing k d h = ground arith

  pub get_at : (k j : Bytes) (d : Disk) → object root (get root k d).1 j ≡ object root d j
  unfolding get object read_file plain_call
  get_at k j d = ground arith

  pub get_total :
      (k c : Bytes) (d : Disk)
      → no_faults d ≡ true
      → object root d k ≡ some c
      → (get root k d).0 ≡ ok c
  unfolding get object read_file plain_call
  get_total k c d h e = ground arith

  pub get_healthy : (k : Bytes) (d : Disk) → no_faults d ≡ true → no_faults (get root k d).1 ≡ true
  unfolding get read_file plain_call
  get_healthy k d h = ground arith

  pub stat_ok :
      (k : Bytes) (n : ℕ) (d : Disk)
      → (stat root k d).0 ≡ ok n
      → (c : Bytes) × (object root d k ≡ some c)
  unfolding stat object read_file
  stat_ok k n d h = elim (Option-cases (object root d k)) [
    | inr found ↦ found
    | inl missing ↦ absurd (ground arith)
  ]

  pub stat_missing :
      (k : Bytes) (d : Disk) → (stat root k d).0 ≡ err not_found → object root d k ≡ none
  unfolding stat object read_file
  stat_missing k d h = ground arith

  pub stat_total :
      (k c : Bytes) (d : Disk)
      → no_faults d ≡ true
      → object root d k ≡ some c
      → (stat root k d).0 ≡ ok (length c)
  unfolding stat object read_file
  stat_total k c d h e = ground arith

  pub stat_at : (k j : Bytes) (d : Disk) → object root (stat root k d).1 j ≡ object root d j
  unfolding stat object read_file
  stat_at k j d = ground arith

  pub stat_healthy :
      (k : Bytes) (d : Disk) → no_faults d ≡ true → no_faults (stat root k d).1 ≡ true
  unfolding stat read_file
  stat_healthy k d h = ground arith

  pub get_absent :
      (k : Bytes) (d : Disk)
      → IsKey root k
      → no_faults d ≡ true
      → object root d k ≡ none
      → (get root k d).0 ≡ err not_found
  unfolding get object read_file
  get_absent k d hk h e = ground (arith, hk.clean, e)

  pub stat_absent :
      (k : Bytes) (d : Disk)
      → IsKey root k
      → no_faults d ≡ true
      → object root d k ≡ none
      → (stat root k d).0 ≡ err not_found
  unfolding stat object read_file
  stat_absent k d hk h e = ground (arith, hk.clean, e)

  pub append_ok :
      (k body : Bytes) (n : ℕ) (d : Disk)
      → IsKey root k
      → (append root k body d).0 ≡ ok n
      → (n ≡ length body)
        × (object root (append root k body d).1 k ≡ some (or_else (object root d k) [] ++ body))
  unfolding append object plain_call create_file copy_to
  append_ok k body n d hk =
      let p = key_path root k in
      let created = find-store p p [] d.files in
      elim (Option-cases (content d p)) [
        | inl e ↦
            rw (hk.clean, e)
              (λ h. ground (arith, h, created, find-store p p body (store p [] d.files), ==_refl p))
        | inr (c, e) ↦
            rw (hk.clean, e)
              (λ h. ground (arith, h, e, find-store p p (c ++ body) d.files, ==_refl p))
      ]

  pub append_at :
      (k body j : Bytes) (d : Disk)
      → IsKey root k
      → IsKey root j
      → (k == j) ≡ false
      → object root (append root k body d).1 j ≡ object root d j
  unfolding append object
  append_at k body j d hk hj other =
      rw (hk.clean, hj.clean)
        (append-Keeps (key_path root k) (key_path root j) body (key_path-eq root k j ∙ other) d)

  pub append_total :
      (k body : Bytes) (d : Disk)
      → IsKey root k
      → no_faults d ≡ true
      → (append root k body d).0 ≡ ok (length body)
  unfolding append plain_call create_file copy_to
  append_total k body d hk h = rw hk.clean (ground arith)

  pub append_healthy :
      (k body : Bytes) (d : Disk) → no_faults d ≡ true → no_faults (append root k body d).1 ≡ true
  unfolding append plain_call create_file copy_to
  append_healthy k body d h = ground arith

  pub list_at :
      (prefix token : Bytes) (n : ℕ) (j : Bytes) (d : Disk)
      → object root (list root prefix token n d).1 j ≡ object root d j
  unfolding object
  list_at prefix token n j d =
      ap (λ (fs : Files). object root (record { files = fs; faults = [] }) j)
        (list-files root prefix token n d)

  is_some-object :
      (k : Bytes) (d : Disk)
      → IsKey root k
      → is_some (find ((path_text root ++ b'/' ∷ []) ++ k) d.files) ≡ is_some (object root d k)
  unfolding object
  is_some-object k d hk =
      rw hk.clean
        (ap (λ (p : Bytes). is_some (content d p)) (append_assoc (path_text root) (b'/' ∷ []) k))

  pub list_seen :
      (n : ℕ) (k : Bytes) (d : Disk) (r : ListResult)
      → IsKey root k
      → no_faults d ≡ true
      → n ≤ 1000
      → length r.keys < n
      → (list root [] [] n d).0 ≡ ok r
      → is_seen k r.keys ≡ is_some (object root d k)
  list_seen n k d r hk h small few done =
      list_names root n k d r (nil_of _ h) small few done ∙ is_some-object k d hk

  pub list_seen_below :
      (prefix : Bytes) (n : ℕ) (k : Bytes) (d : Disk) (r : ListResult)
      → IsKey root prefix
      → IsKey root k
      → has_prefix k (prefix ++ b'/' ∷ []) ≡ true
      → no_faults d ≡ true
      → n ≤ 1000
      → length r.keys < n
      → (list root prefix [] n d).0 ≡ ok r
      → is_seen k r.keys ≡ is_some (object root d k)
  list_seen_below prefix n k d r hp hk under h small few done =
      list_below root n k d r (nil_of _ h) small few prefix hp.clean under done
      ∙ is_some-object k d hk
