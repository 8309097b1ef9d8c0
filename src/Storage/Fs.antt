-- ===== src/Storage/Fs.antt =====
-- internal/storage/fs/fs.go: the filesystem backend, over the files of a `Disk`.
pub mod Listing
pub mod Walked
pub mod Names
pub mod Keeps
pub mod Atomic
pub mod Objects
pub mod Contract
pub mod CasKeys
use packrune.Prelude.{
  ℕ, zero, suc, ◌+◌, ◌≤◌, ◌<◌, ◌≡◌, refl, Bool, true, false, not, ◌&&◌, ◌||◌, Option, none, some,
  List, [], ◌∷◌, ◌++◌, arith, Bytes, codes, length, ◌==◌, eq_iff, ltb, leb, nat_eq, if◌then◌else◌,
  has_prefix, trim_prefix, split, contains, Bool-cases, strip_prefix?,
}
use packrune.Action.{
  Error, not_found, invalid_key, io, Result, ok, err, Action, ◌>>=◌, ◌>>◌, pure, raise, attempt,
}
use packrune.Storage.Disk.{
  Files, Disk, Copied, content, read_file, remove_file, plain_call, create_file, copy_to,
  rename_file,
}

-- The directory that `b.root` names, by its path elements: `filepath.Abs` has cleaned it.
abbrev pub Root : Type 0
Root = List Bytes

-- The text of a rooted path.
unfoldable pub path_text : List Bytes → Bytes
path_text [] = []
path_text (e ∷ es) = b'/' ∷ (e ++ path_text es)

abbrev drop_last : List Bytes → List Bytes
drop_last [] = []
drop_last (e ∷ []) = []
drop_last (e ∷ f ∷ es) = e ∷ drop_last (f ∷ es)

-- filepath.Clean of a rooted path, one element at a time, onto the elements kept so far.
unfoldable pub clean_onto : List Bytes → List Bytes → List Bytes
clean_onto kept [] = kept
clean_onto kept (e ∷ es) =
    clean_onto
      (if e == [] || e == codes "."
        then kept
        else if e == codes ".."
        then drop_last kept
        else kept ++ e ∷ [])
      es

-- filepath.Join(b.root, key)
unfoldable pub join_path : Root → Bytes → Bytes
join_path root key = path_text (clean_onto root (split key b'/'))

-- On Unix ToSlash and FromSlash change nothing.
unfoldable pub resolve : Root → Bytes → Result Bytes
resolve root key =
    let k = trim_prefix key (codes "/") in
    if k == []
    then ok (path_text root)
    else if contains k (codes "..")
    then err invalid_key
    else if not (has_prefix (join_path root k) (path_text root))
    then err invalid_key
    else ok (join_path root k)

abbrev lift : Result Bytes → Action Disk Bytes
lift r d = (r, d)

unfoldable pub get : Root → Bytes → Action Disk Bytes
get root key = do p ← lift (resolve root key); c ← read_file p; plain_call; pure c

unfoldable pub stat : Root → Bytes → Action Disk ℕ
stat root key = do p ← lift (resolve root key); c ← read_file p; pure (length c)

abbrev pub ignore_missing : Result (Unit {0}) → Result (Unit {0})
ignore_missing (ok u) = ok u
ignore_missing (err e) = elim e [ not_found ↦ ok tt | f ↦ err f ]

unfoldable pub delete : Root → Bytes → Action Disk (Unit {0})
delete root key = do
  p ← lift (resolve root key)
  λ d. let (r, d') = remove_file p d in (ignore_missing r, d')

-- Remove the temporary file, whatever becomes of that, and fail.
abbrev give_up : Bytes → Action Disk ℕ
give_up tmp d = (err io, (remove_file tmp d).1)

abbrev after_rename : Bytes → ℕ → Result (Unit {0}) → Action Disk ℕ
after_rename tmp n (ok _) d = (ok n, d)
after_rename tmp n (err e) d = give_up tmp d

abbrev rename_or_give_up : Bytes → Bytes → ℕ → Action Disk ℕ
rename_or_give_up tmp dst n d = let (r, d') = rename_file tmp dst d in after_rename tmp n r d'

abbrev after_close : Bytes → Bytes → Copied → Result (Unit {0}) → Action Disk ℕ
after_close tmp dst c (ok _) d =
    if c.failed then give_up tmp d else rename_or_give_up tmp dst c.count d
after_close tmp dst c (err _) d = give_up tmp d

-- What follows `resolve` in Put; `tmp` is the name that os.CreateTemp finds.
unfoldable pub write_through : Bytes → Bytes → Bytes → Action Disk ℕ
write_through tmp dst body = do
  plain_call
  create_file tmp
  copied ← copy_to tmp body
  closed ← attempt plain_call
  after_close tmp dst copied closed

-- os.CreateTemp chooses a name in the directory of the destination that no file has.
unfoldable pub put : (Disk → Bytes → Bytes) → Root → Bytes → Bytes → Action Disk ℕ
put temp_name root key body = do
  dst ← lift (resolve root key)
  λ d. write_through (temp_name d dst) dst body d

abbrev after_append : Copied → Result (Unit {0}) → Result ℕ
after_append c (ok _) = if c.failed then err io else ok c.count
after_append c (err _) = err io

abbrev open_append : Bytes → Action Disk (Unit {0})
open_append p d = elim (content d p) [ none ↦ create_file p d | some c ↦ plain_call d ]

unfoldable pub append : Root → Bytes → Bytes → Action Disk ℕ
append root key body = do
  dst ← lift (resolve root key)
  plain_call
  open_append dst
  copied ← copy_to dst body
  closed ← attempt plain_call
  λ d. (after_append copied closed, d)
