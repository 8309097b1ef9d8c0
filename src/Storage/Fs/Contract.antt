-- ===== src/Storage/Fs/Contract.antt =====
-- The filesystem backend is a backend: the contract, for keys that are clean paths.
use packrune.Prelude.{
  [], ℕ, ◌≡◌, ◌≢◌, inl, inr, ap, true, false, ◌&&◌, none, some, arith, Bytes, codes, length, ◌==◌,
  if◌then◌else◌, has_suffix,
}
use packrune.Action.{ok, is_ok, Result-cases}
use packrune.Storage.{Backend}
use packrune.Storage.Contract.{IsBackend}
use packrune.Storage.Disk.{Disk, content, remove_file}
use packrune.Storage.Fs.{Root, resolve, get, put, append, stat, delete}
use packrune.Storage.Fs.Listing.{list}
use packrune.Storage.Fs.Names.{resolve-nil, list-has_prefix, list_calm}
use packrune.Storage.Fs.Atomic.{
  write_through-at, write_through_ok, write_through_total, write_through_healthy, ignore_missing-at,
}
use packrune.Storage.Fs.Objects.{
  nil_of, no_faults, object, key_path, IsKey, key_path-eq, get_ok, get_missing, get_at, get_total,
  get_healthy, stat_ok, stat_missing, stat_total, stat_at, stat_healthy, get_absent, stat_absent,
  append_ok, append_at, append_total, append_healthy, list_at, list_seen, list_seen_below,
}

-- What os.CreateTemp documents for the pattern ".pkr-*.tmp": a file that was not there, of that name.
pub record IsTempName (temp_name : Disk → Bytes → Bytes) : Type 0 where
  pub fresh : (d : Disk) (dst : Bytes) → content d (temp_name d dst) ≡ none
  pub suffix : (d : Disk) (dst : Bytes) → has_suffix (temp_name d dst) (codes ".tmp") ≡ true

module _ (temp_name : Disk → Bytes → Bytes) (root : Root) where
  abbrev pub backend : Backend Disk
  backend = record {
    get = get root;
    put = put temp_name root;
    append = append root;
    stat = stat root;
    delete = delete root;
    list = list root;
  }

module _ (temp_name : Disk → Bytes → Bytes) (root : Root) (temp : IsTempName temp_name) where
  ne_temp : (d : Disk) (dst p : Bytes) → has_suffix p (codes ".tmp") ≡ false → p ≢ temp_name d dst
  ne_temp d dst p h e = cc (temp.suffix d dst, ap (λ (q : Bytes). has_suffix q (codes ".tmp")) e)

  put_at :
      (k body j : Bytes) (d : Disk)
      → IsKey root k
      → IsKey root j
      → object root (put temp_name root k body d).1 j
        ≡ (if is_ok (put temp_name root k body d).0 && k == j then some body else object root d j)
  unfolding object put
  put_at k body j d hk hj =
      rw
        (
          hk.clean,
          hj.clean,
          write_through-at (temp_name d (key_path root k)) (key_path root k) body d
              (key_path root j) (ne_temp d _ _ hj.permanent),
        )
        (rw (key_path-eq root k j))

  put_ok :
      (k body : Bytes) (n : ℕ) (d : Disk) → (put temp_name root k body d).0 ≡ ok n → n ≡ length body
  unfolding put
  put_ok k body n d h = elim (Result-cases (resolve root k)) [
    | inl (dst, e) ↦ write_through_ok (temp_name d dst) dst body d n (rw e at h)
    | inr (x, e) ↦ ground arith
  ]

  delete_at :
      (k j : Bytes) (d : Disk)
      → IsKey root k
      → IsKey root j
      → object root (delete root k d).1 j
        ≡ (if is_ok (delete root k d).0 && k == j then none else object root d j)
  unfolding object delete
  delete_at k j d hk hj =
      rw (hk.clean, hj.clean, ← key_path-eq root k j)
        (ignore_missing-at (key_path root j) d (key_path root k))

  delete_healthy :
      (k : Bytes) (d : Disk) → no_faults d ≡ true → no_faults (delete root k d).1 ≡ true
  unfolding delete remove_file
  delete_healthy k d h = ground arith

  delete_total :
      (k : Bytes) (d : Disk) → IsKey root k → no_faults d ≡ true → (delete root k d).0 ≡ ok tt
  unfolding delete remove_file
  delete_total k d hk h = rw hk.clean (ground arith)

  put_total :
      (k body : Bytes) (d : Disk)
      → IsKey root k
      → no_faults d ≡ true
      → (put temp_name root k body d).0 ≡ ok (length body)
  unfolding put
  put_total k body d hk h =
      rw hk.clean
        (write_through_total (temp_name d (key_path root k)) (key_path root k) body d (nil_of _ h))

  put_healthy :
      (k body : Bytes) (d : Disk)
      → no_faults d ≡ true
      → no_faults (put temp_name root k body d).1 ≡ true
  unfolding put
  put_healthy k body d h = elim (Result-cases (resolve root k)) [
    | inl (dst, e) ↦ rw e (rw (write_through_healthy (temp_name d dst) dst body d (nil_of _ h)))
    | inr (x, e) ↦ rw e h
  ]

  pub fs-IsBackend : IsBackend (backend temp_name root) (object root) (IsKey root) no_faults
  fs-IsBackend = record {
    get_ok = get_ok root;
    get_missing = get_missing root;
    get_absent = get_absent root;
    get_at = get_at root;
    get_total = get_total root;
    get_healthy = get_healthy root;
    stat_ok = stat_ok root;
    stat_missing = stat_missing root;
    stat_total = stat_total root;
    stat_absent = stat_absent root;
    stat_at = stat_at root;
    stat_healthy = stat_healthy root;
    put_at = put_at;
    put_ok = put_ok;
    put_total = put_total;
    put_healthy = put_healthy;
    delete_at = delete_at;
    delete_healthy = delete_healthy;
    delete_total = delete_total;
    append_ok = append_ok root;
    append_at = append_at root;
    append_total = append_total root;
    append_healthy = append_healthy root;
    list_prefix = list-has_prefix root;
    list_at = list_at root;
    list_total = λ n d h. (_, list_calm root [] _ n d (resolve-nil root) (nil_of _ h));
    list_total_below = λ p n d hp h. (_, list_calm root p _ n d hp.clean (nil_of _ h));
    list_names = list_seen root;
    list_below = list_seen_below root;
  }
