-- ===== src/Storage/Disk.antt =====
-- The files that package `os` works on. A directory is there when a file is in it.
use packrune.Prelude.{
  ℕ, zero, suc, ◌≡◌, Option, none, some, List, [], ◌∷◌, ◌++◌, arith, Bytes, length, ◌==◌, eq_iff,
  if◌then◌else◌, is_some, Bool,
}
use packrune.Action.{not_found, io, ok, err, Action}

abbrev pub Files : Type 0
Files = List (Bytes × Bytes)

unfoldable pub find : Bytes → Files → Option Bytes
find p [] = none
find p ((q, c) ∷ fs) = if q == p then some c else find p fs

unfoldable pub without : Bytes → Files → Files
without p [] = []
without p ((q, c) ∷ fs) = let rest = without p fs in if q == p then rest else (q, c) ∷ rest

-- What the next calls of the operating system do: `none` succeeds, `some n` fails, a copy after
-- `n` bytes. With no entry left every call succeeds.
pub record Disk : Type 0 where
  pub files : Files
  pub faults : List (Option ℕ)

abbrev pub content : Disk → Bytes → Option Bytes
content d p = find p d.files

abbrev head_fault : List (Option ℕ) → Option ℕ
head_fault [] = none
head_fault (f ∷ fs) = f

abbrev tail_faults : List (Option ℕ) → List (Option ℕ)
tail_faults [] = []
tail_faults (f ∷ fs) = fs

abbrev pub fault : Disk → Option ℕ
fault d = head_fault d.faults

-- The disk on which the call behind this one runs.
abbrev pub after_call : Disk → Disk
after_call d = record d { faults = tail_faults d.faults }

pub find-without :
    (p q : Bytes) (fs : Files) → find q (without p fs) ≡ (if p == q then none else find q fs)
unfolding find without
find-without p q [] = ground arith
find-without p q ((r, c) ∷ fs) =
    ground (arith, find-without p q fs, eq_iff r p, eq_iff r q, eq_iff p q)

unfoldable pub store : Bytes → Bytes → Files → Files
store p c fs = (p, c) ∷ without p fs

pub find-store :
    (p q c : Bytes) (fs : Files) → find q (store p c fs) ≡ (if p == q then some c else find q fs)
unfolding find store
find-store p q c fs = ground (arith, find-without p q fs)

abbrev pub take : ℕ → Bytes → Bytes
take zero s = []
take (suc n) [] = []
take (suc n) (c ∷ s) = c ∷ take n s

-- os.Open and reading to the end, os.Stat.
unfoldable pub read_file : Bytes → Action Disk Bytes
read_file p d = elim (fault d) [
  | some n ↦ (err io, after_call d)
  | none ↦ elim (content d p) [
    | none ↦ (err not_found, after_call d)
    | some c ↦ (ok c, after_call d)
  ]
]

-- os.Remove; it reports whether the file was there.
unfoldable pub remove_file : Bytes → Action Disk (Unit {0})
remove_file p d = elim (fault d) [
  | some n ↦ (err io, after_call d)
  | none ↦ elim (content d p) [
    | none ↦ (err not_found, after_call d)
    | some c ↦ (ok tt, record (after_call d) { files = without p d.files })
  ]
]

-- os.MkdirAll, and other calls that leave every file alone.
unfoldable pub plain_call : Action Disk (Unit {0})
plain_call d = elim (fault d) [ some n ↦ (err io, after_call d) | none ↦ (ok tt, after_call d) ]

-- A new file is created empty.
unfoldable pub create_file : Bytes → Action Disk (Unit {0})
create_file p d = elim (fault d) [
  | some n ↦ (err io, after_call d)
  | none ↦ (ok tt, record (after_call d) { files = store p [] d.files })
]

abbrev pub old_content : Option Bytes → Bytes
old_content none = []
old_content (some c) = c

abbrev pub delivered : Option ℕ → Bytes → Bytes
delivered none body = body
delivered (some n) body = take n body

-- The count and the error that io.Copy returns.
pub record Copied : Type 0 where
  pub count : ℕ
  pub failed : Bool

-- io.Copy to the end of an open file.
unfoldable pub copy_to : Bytes → Bytes → Action Disk Copied
copy_to p body d =
    let part = delivered (fault d) body in
    (
      ok (record { count = length part; failed = is_some (fault d) }),
      record (after_call d) { files = store p (old_content (content d p) ++ part) d.files },
    )

-- os.Rename, onto whatever is there.
unfoldable pub rename_file : Bytes → Bytes → Action Disk (Unit {0})
rename_file p q d = elim (fault d) [
  | some n ↦ (err io, after_call d)
  | none ↦ elim (content d p) [
    | none ↦ (err not_found, after_call d)
    | some c ↦ (ok tt, record (after_call d) { files = store q c (without p d.files) })
  ]
]
