-- ===== src/Examples/Blobs.antt =====
-- The storage theorems at concrete inputs.
use packrune.Prelude.{
  ℕ, ◌≡◌, refl, ◌&&◌, Option, none, some, List, [], ◌∷◌, arith, Bytes, codes, ◌==◌, ==_refl,
  if◌then◌else◌,
}
use packrune.Action.{ok, is_ok}
use packrune.Storage.Disk.{Disk, content, find}
use packrune.Storage.Fs.{write_through}
use packrune.Storage.Fs.Atomic.{write_through-at}
use packrune.Storage.Fs.Objects.{object, key_path, IsKey, no_faults}
use packrune.Storage.Cas
use packrune.Storage.Cas.{key_for, digest_of}
use packrune.Storage.Cas.Keys.{IsDigest, digest_of-IsDigest}
use packrune.Storage.Cas.Addressed.{blob, IsAddressed, put-IsAddressed, get-put}
use packrune.Examples.Instances.{
  sha256, sha256-IsHash, nonce, root, fs, fs_laws, digest_key, upload_key, empty_disk,
}

abbrev hello : Bytes
hello = codes "hello"

abbrev other : Bytes
other = codes "other content"

hello_digest : IsDigest (digest_of sha256 hello)
hello_digest = digest_of-IsDigest sha256-IsHash hello

abbrev blob_of : Disk → Bytes → Option Bytes
blob_of =
    blob sha256 sha256-IsHash fs (object root) (IsKey root) no_faults fs_laws digest_key nonce
      upload_key

abbrev pub Addressed : Disk → Type 0
Addressed =
    IsAddressed sha256 sha256-IsHash fs (object root) (IsKey root) no_faults fs_laws digest_key
      nonce upload_key

pub empty_Addressed :
    (faults : List (Option ℕ)) → Addressed (record { files = []; faults = faults })
unfolding IsAddressed object find
empty_Addressed faults d c h e = absurd (ground (arith, (digest_key d h).clean))

-- The copy of the first write fails behind one byte.
abbrev failing : Disk
failing = record { files = []; faults = none ∷ none ∷ some 1 ∷ [] }

write_through-at_example :
    content
      (write_through (codes "/data/t.tmp") (codes "/data/a") hello failing).1
      (codes "/data/a")
    ≡ (if is_ok (write_through (codes "/data/t.tmp") (codes "/data/a") hello failing).0
          && codes "/data/a" == codes "/data/a"
        then some hello
        else content failing (codes "/data/a"))
write_through-at_example =
    write_through-at (codes "/data/t.tmp") (codes "/data/a") hello failing (codes "/data/a")
      (λ e. cc)

put-IsAddressed_example : Addressed (Cas.put sha256 fs nonce hello failing).1
put-IsAddressed_example =
    put-IsAddressed sha256 sha256-IsHash fs (object root) (IsKey root) no_faults fs_laws digest_key
      nonce upload_key hello failing (empty_Addressed (none ∷ none ∷ some 1 ∷ []))

get-put_example :
    ((Cas.put sha256 fs nonce hello empty_disk).0 ≡ ok (digest_of sha256 hello, 5))
    × (c : Bytes) × ((Cas.get fs
          (digest_of sha256 hello)
          (Cas.put sha256 fs nonce hello empty_disk).1).0
        ≡ ok c)
    × (digest_of sha256 c ≡ digest_of sha256 hello)
    × ((blob_of empty_disk (digest_of sha256 hello) ≡ none) → c ≡ hello)
get-put_example =
    get-put sha256 sha256-IsHash fs (object root) (IsKey root) no_faults fs_laws digest_key nonce
      upload_key hello empty_disk refl (empty_Addressed [])

-- The disk on which hello is stored.
abbrev hello_disk : Disk
hello_disk = record {
  files = (key_path root (key_for (digest_of sha256 hello)), hello) ∷ [];
  faults = [];
}

hello_stored : blob_of hello_disk (digest_of sha256 hello) ≡ some hello
unfolding object find
hello_stored = ground (
  arith,
  (digest_key (digest_of sha256 hello) hello_digest).clean,
  ==_refl (key_path root (key_for (digest_of sha256 hello))),
)
