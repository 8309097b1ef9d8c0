-- ===== src/Storage/Fs/Atomic.antt =====
-- What the writes of the filesystem backend leave behind, whatever calls fail on the way.
use packrune.Prelude.{
  ℕ, ◌≡◌, ◌≢◌, inl, inr, ◌&&◌, none, some, [], ◌++◌, arith, Bytes, length, ◌==◌, eq_iff, ==_refl,
  if◌then◌else◌, Option-cases,
}
use packrune.Action.{ok, is_ok}
use packrune.Storage.Disk.{
  Disk, fault, delivered, old_content, without, find-store, find-without, content, remove_file,
  plain_call, create_file, copy_to, rename_file,
}
use packrune.Storage.Fs.{write_through, ignore_missing}

-- What each call does to the file `q`.
module _ (q : Bytes) (d : Disk) where
  pub remove_file-at :
      (p : Bytes)
      → content (remove_file p d).1 q
        ≡ (if is_ok (remove_file p d).0 && p == q then none else content d q)
  unfolding remove_file
  remove_file-at p = ground (arith, find-without p q d.files)

  -- Delete, which takes a missing file for deleted.
  pub ignore_missing-at :
      (p : Bytes)
      → content (remove_file p d).1 q
        ≡ (if is_ok (ignore_missing (remove_file p d).0) && p == q then none else content d q)
  unfolding remove_file
  ignore_missing-at p = ground (arith, find-without p q d.files, eq_iff p q)

  pub plain_call-at : content (plain_call d).1 q ≡ content d q
  unfolding plain_call
  plain_call-at = ground arith

  create_file-at :
      (p : Bytes)
      → content (create_file p d).1 q
        ≡ (if is_ok (create_file p d).0 && p == q then some [] else content d q)
  unfolding create_file
  create_file-at p = ground (arith, find-store p q [] d.files)

  rename_file-at :
      (p p' : Bytes)
      → content (rename_file p p' d).1 q ≡ (
          if is_ok (rename_file p p' d).0
          then (if p' == q then content d p else if p == q then none else content d q)
          else content d q)
  unfolding rename_file
  rename_file-at p p' = elim (Option-cases (content d p)) [
    | inl e ↦ ground arith
    | inr (c, e) ↦ ground (arith, find-store p' q c (without p d.files), find-without p q d.files)
  ]

  copy_to-at :
      (p body : Bytes)
      → content (copy_to p body d).1 q ≡ (
          if p == q
          then some (old_content (content d p) ++ delivered (fault d) body)
          else content d q)
  unfolding copy_to
  copy_to-at p body =
      ground (arith, find-store p q (old_content (content d p) ++ delivered (fault d) body) d.files)

plain_call_healthy :
    (d : Disk) → d.faults ≡ [] → ((plain_call d).0 ≡ ok tt) × ((plain_call d).1.faults ≡ [])
unfolding plain_call
plain_call_healthy d h = ground arith

create_file_healthy :
    (p : Bytes) (d : Disk)
    → d.faults ≡ []
    → ((create_file p d).0 ≡ ok tt) × ((create_file p d).1.faults ≡ [])
unfolding create_file
create_file_healthy p d h = ground arith

copy_to_healthy : (p body : Bytes) (d : Disk) → d.faults ≡ [] → (copy_to p body d).1.faults ≡ []
unfolding copy_to
copy_to_healthy p body d h = ground arith

remove_file_healthy : (p : Bytes) (d : Disk) → d.faults ≡ [] → (remove_file p d).1.faults ≡ []
unfolding remove_file
remove_file_healthy p d h = ground arith

rename_file_healthy : (p q : Bytes) (d : Disk) → d.faults ≡ [] → (rename_file p q d).1.faults ≡ []
unfolding rename_file
rename_file_healthy p q d h = ground arith

rename_file_total :
    (p q : Bytes) (d : Disk) (c : Bytes)
    → d.faults ≡ []
    → content d p ≡ some c
    → (rename_file p q d).0 ≡ ok tt
unfolding rename_file
rename_file_total p q d c h e = ground arith

module _ (tmp dst body : Bytes) (d : Disk) where
  abbrev d1 : Disk
  d1 = (plain_call d).1

  abbrev d2 : Disk
  d2 = (create_file tmp d1).1

  abbrev d3 : Disk
  d3 = (copy_to tmp body d2).1

  abbrev d4 : Disk
  d4 = (plain_call d3).1

  -- Put replaces the whole content of its destination if it succeeds, and changes nothing if it
  -- fails, at whatever call that is: this is what any file but the temporary one holds behind it.
  pub write_through-at :
      (q : Bytes)
      → q ≢ tmp
      → content (write_through tmp dst body d).1 q
        ≡ (if is_ok (write_through tmp dst body d).0 && dst == q then some body else content d q)
  unfolding write_through copy_to
  write_through-at q h = ground (
    arith,
    eq_iff tmp q,
    eq_iff dst q,
    plain_call-at q d,
    create_file-at q d1 tmp,
    copy_to-at q d2 tmp body,
    create_file-at tmp d1 tmp,
    copy_to-at tmp d2 tmp body,
    plain_call-at tmp d3,
    plain_call-at q d3,
    rename_file-at q d4 tmp dst,
    remove_file-at q d4 tmp,
    remove_file-at q (rename_file tmp dst d4).1 tmp,
    ==_refl tmp,
  )

  abbrev d5 : Disk
  d5 = (rename_file tmp dst d4).1

  -- The count that a successful Put returns.
  pub write_through_ok : (n : ℕ) → (write_through tmp dst body d).0 ≡ ok n → n ≡ length body
  unfolding write_through copy_to
  write_through_ok n h = ground arith

  -- With no call failing, Put succeeds.
  pub write_through_total : d.faults ≡ [] → (write_through tmp dst body d).0 ≡ ok (length body)
  unfolding write_through copy_to
  write_through_total h = ground (
    arith,
    plain_call_healthy d,
    create_file_healthy tmp d1,
    copy_to_healthy tmp body d2,
    plain_call_healthy d3,
    rename_file_total tmp dst d4 (old_content (content d2 tmp) ++ delivered (fault d2) body),
    copy_to-at tmp d2 tmp body,
    plain_call-at tmp d3,
    ==_refl tmp,
  )

  pub write_through_healthy : d.faults ≡ [] → (write_through tmp dst body d).1.faults ≡ []
  unfolding write_through copy_to
  write_through_healthy h = ground (
    arith,
    plain_call_healthy d,
    create_file_healthy tmp d1,
    copy_to_healthy tmp body d2,
    plain_call_healthy d3,
    rename_file_healthy tmp dst d4,
    remove_file_healthy tmp d4,
    remove_file_healthy tmp d5,
  )
