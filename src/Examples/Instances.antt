-- ===== src/Examples/Instances.antt =====
-- What the packages outside the repository are in the tests: a hash, a random number and a name for
-- temporary files, and the filesystem backend over them.
use packrune.Prelude.{
  ℕ, zero, suc, ◌%◌, ◌<◌, ◌≡◌, refl, true, none, [], ◌∷◌, ◌++◌, arith, Bytes, codes, length,
  length-append, ◌==◌, eq_iff, has_suffix, strip_suffix?, All,
}
use packrune.Storage.{Backend}
use packrune.Storage.Contract.{IsBackend}
use packrune.Storage.Disk.{Files, Disk, find}
use packrune.Storage.Fs.{Root}
use packrune.Storage.Fs.Objects.{object, IsKey, no_faults}
use packrune.Storage.Fs.Contract.{IsTempName, backend, fs-IsBackend}
use packrune.Storage.Fs.CasKeys.{digest-IsKey, upload-IsKey}
use packrune.Storage.Cas.{key_for, temp_key}
use packrune.Storage.Cas.Hash.{IsHash, IsNonce}
use packrune.Storage.Cas.Keys.{IsDigest}

abbrev pub replicate : ℕ → ℕ → Bytes
replicate zero c = []
replicate (suc n) c = c ∷ replicate n c

length-replicate : (n c : ℕ) → length (replicate n c) ≡ n
length-replicate zero c = refl
length-replicate (suc n) c = omega (arith, length-replicate n c)

All-replicate : (n c : ℕ) → c < 256 → All (λ x. x < 256) (replicate n c)
All-replicate zero c h = tt
All-replicate (suc n) c h = (h, All-replicate n c h)

abbrev pub sha256 : Bytes → Bytes
sha256 body = replicate 32 (length body % 256)

pub sha256-IsHash : IsHash sha256
sha256-IsHash = record {
  size = λ body. length-replicate 32 (length body % 256);
  bytes = λ body. All-replicate 32 (length body % 256) (omega arith);
}

abbrev pub nonce : Bytes
nonce = replicate 16 7

pub nonce-IsNonce : IsNonce nonce
nonce-IsNonce = record { size = length-replicate 16 7; bytes = All-replicate 16 7 (omega arith) }

-- A name that is longer than every name there is.
abbrev all_paths : Files → Bytes
all_paths [] = []
all_paths ((p, c) ∷ fs) = p ++ all_paths fs

abbrev pub temp_name : Disk → Bytes → Bytes
temp_name d dst = all_paths d.files ++ codes ".tmp"

find-longer : (fs : Files) (p : Bytes) → length (all_paths fs) < length p → find p fs ≡ none
unfolding find
find-longer [] p h = refl
find-longer ((q, c) ∷ fs) p h =
    ground (arith, find-longer fs p, length-append q (all_paths fs), eq_iff q p)

temp_name-suffix : (x : Bytes) → has_suffix (x ++ codes ".tmp") (codes ".tmp") ≡ true
unfolding has_suffix strip_suffix?
temp_name-suffix [] = unfold ◌==◌ in refl
temp_name-suffix (c ∷ x) = ground (arith, temp_name-suffix x)

pub temp_name-IsTempName : IsTempName temp_name
temp_name-IsTempName = record {
  fresh = λ d dst.
      find-longer d.files (temp_name d dst)
        (omega (arith, length-append (all_paths d.files) (codes ".tmp")));
  suffix = λ d dst. temp_name-suffix (all_paths d.files);
}

abbrev pub root : Root
root = codes "data" ∷ []

abbrev pub fs : Backend Disk
fs = backend temp_name root

pub fs_laws : IsBackend fs (object root) (IsKey root) no_faults
fs_laws = fs-IsBackend temp_name root temp_name-IsTempName

pub digest_key : (d : Bytes) → IsDigest d → IsKey root (key_for d)
digest_key = digest-IsKey root

pub upload_key : IsKey root (temp_key nonce)
upload_key = upload-IsKey root nonce nonce-IsNonce

abbrev pub empty_disk : Disk
empty_disk = record { files = []; faults = [] }
