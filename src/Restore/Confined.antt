-- ===== src/Restore/Confined.antt =====
-- cmd/packrune/restore.go: which files a restore leaves alone.
use packrune.Prelude.{
  ◌≡◌, refl, sym, ap, ◌∙◌, Bool, true, false, not, ◌||◌, some, List, [], ◌∷◌, ◌++◌, append_assoc,
  append-nil, arith, Bytes, codes, ◌==◌, ==_refl, eq_of_==, has_prefix, strip_prefix?-append,
  trim_prefix, split, All, inl, inr, Bool-cases, Option-cases,
}
use packrune.Action.{Result, ok, err, ◌>>=◌, ◌>>◌}
use packrune.Storage.Disk.{Disk, Copied, content, plain_call, create_file, copy_to}
use packrune.Storage.Fs.Keeps.{
  Keeps, then-Keeps, plain_call-Keeps, create_file-Keeps, copy_to-Keeps,
}
use packrune.Storage.Fs.{Root, path_text, clean_onto, join_path}
use packrune.Restore.{Entry, wal, shm, target, after_copy, write_entry, restore_to, restore_entries}

-- No part of a name goes to the parent.
abbrev pub IsPlain : Bytes → Type 0
IsPlain name =
    All (λ (e : Bytes). (e == codes "..") ≡ false)
      (split (trim_prefix name (codes "storage/")) b'/')

clean_onto-plain :
    (kept es : List Bytes)
    → All (λ (e : Bytes). (e == codes "..") ≡ false) es
    → (rest : List Bytes) × (clean_onto kept es ≡ kept ++ rest)
unfolding clean_onto
clean_onto-plain kept [] h = ([], sym (append-nil kept))
clean_onto-plain kept (e ∷ es) (h, hs) = elim (Bool-cases (e == [] || e == codes ".")) [
  | inl k ↦ rw k (clean_onto-plain kept es hs)
  | inr k ↦
      let (rest, more) = clean_onto-plain (kept ++ e ∷ []) es hs in
      rw (k, h) (e ∷ rest, more ∙ append_assoc kept (e ∷ []) rest)
]

path_text-append : (xs ys : List Bytes) → path_text (xs ++ ys) ≡ path_text xs ++ path_text ys
unfolding path_text
path_text-append [] ys = refl
path_text-append (x ∷ xs) ys =
    ground (arith, path_text-append xs ys, append_assoc x (path_text xs) (path_text ys))

module _ (root : Root) (dsn : Bytes) where
  -- A path at a directory or under it.
  abbrev is_under : Bytes → Bytes → Bool
  is_under dir q = q == dir || has_prefix q (dir ++ b'/' ∷ [])

  -- A path that is none of the three files of the database and not at the storage root or under it.
  abbrev pub is_outside : Bytes → Bool
  is_outside q = not (dsn == q || wal dsn == q || shm dsn == q || is_under (path_text root) q)

  path_text-is_under :
      (rest : List Bytes) → is_under (path_text root) (path_text root ++ path_text rest) ≡ true
  unfolding path_text has_prefix
  path_text-is_under [] = ground (arith, append-nil (path_text root), ==_refl (path_text root))
  path_text-is_under (e ∷ es) =
      let below = e ++ path_text es in
      ground (
        arith,
        append_assoc (path_text root) (b'/' ∷ []) below,
        strip_prefix?-append (path_text root ++ b'/' ∷ []) below,
      )

  join_path-outside :
      (name q : Bytes)
      → IsPlain name
      → is_under (path_text root) q ≡ false
      → (join_path root (trim_prefix name (codes "storage/")) == q) ≡ false
  unfolding join_path
  join_path-outside name q plain out =
      let parts = split (trim_prefix name (codes "storage/")) b'/' in
      let (rest, cleaned) = clean_onto-plain root parts plain in
      elim (Bool-cases (path_text (clean_onto root parts) == q)) [
        | inr e ↦ e
        | inl e ↦
            let at_ : q ≡ path_text root ++ path_text rest =
              sym (eq_of_== (path_text (clean_onto root parts)) q e)
              ∙ ap path_text cleaned
              ∙ path_text-append root rest in
            absurd (ground (arith, out, at_, path_text-is_under rest))
      ]

  target-outside :
      (name q dst : Bytes)
      → IsPlain name
      → is_outside q ≡ true
      → target root dsn name ≡ some dst
      → (dst == q) ≡ false
  unfolding target
  target-outside name q dst plain out found =
      ground (arith, out, found, join_path-outside name q plain)

  after_copy-Keeps : (q : Bytes) (c : Copied) → Keeps q (after_copy c)
  after_copy-Keeps q c d = elim (Bool-cases c.failed) [
    | inl e ↦ rw e (plain_call-Keeps q d)
    | inr e ↦ rw e (plain_call-Keeps q d)
  ]

  write_entry-Keeps : (dst body q : Bytes) → (dst == q) ≡ false → Keeps q (write_entry dst body)
  unfolding write_entry
  write_entry-Keeps dst body q other =
      then-Keeps q plain_call (λ u. create_file dst >> (copy_to dst body >>= after_copy))
        (plain_call-Keeps q)
        (λ u.
          then-Keeps q (create_file dst) (λ v. copy_to dst body >>= after_copy)
            (create_file-Keeps dst q other)
            (λ v.
              then-Keeps q (copy_to dst body) after_copy (copy_to-Keeps dst q body other)
                (after_copy-Keeps q)))

  restore_to-Keeps :
      (e : Entry) (q : Bytes)
      → IsPlain e.name
      → is_outside q ≡ true
      → Keeps q (restore_to (target root dsn e.name) e)
  restore_to-Keeps e q plain out d = elim (Option-cases (target root dsn e.name)) [
    | inl k ↦ rw k refl
    | inr (dst, k) ↦ elim (Bool-cases e.is_dir) [
      | inl x ↦ rw (k, x) (plain_call-Keeps q d)
      | inr x ↦
          rw (k, x) (write_entry-Keeps dst e.body q (target-outside e.name q dst plain out k) d)
    ]
  ]

  abbrev pub AllPlain : List (Result Entry) → Type 0
  AllPlain [] = Unit
  AllPlain (err x ∷ es) = AllPlain es
  AllPlain (ok e ∷ es) = IsPlain e.name × AllPlain es

  -- An archive whose names have no part ".." changes no file but those of the database and what stands at
  -- the storage root or under it, whatever calls fail.
  pub restore_entries-content :
      (es : List (Result Entry)) (q : Bytes) (d : Disk)
      → AllPlain es
      → is_outside q ≡ true
      → content (restore_entries root dsn es d).1 q ≡ content d q
  unfolding restore_entries
  restore_entries-content [] q d plain out = refl
  restore_entries-content (err x ∷ es) q d plain out = refl
  restore_entries-content (ok e ∷ es) q d (plain, rest) out =
      then-Keeps q (restore_to (target root dsn e.name) e) (λ u. restore_entries root dsn es)
        (restore_to-Keeps e q plain out) (λ u d'. restore_entries-content es q d' rest out) d
