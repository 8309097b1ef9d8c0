-- ===== src/Storage/Contract.antt =====
-- What internal/storage asks of a backend, for the layers above it: the comments on `Backend` in
-- storage.go, and that a failed call leaves the objects alone.
use packrune.Prelude.{
  ℕ, ◌≡◌, Bool, true, ◌&&◌, Option, none, some, Bytes, length, ◌==◌, if◌then◌else◌, false, [], ◌∷◌,
  ◌++◌, ◌≤◌, ◌<◌, or_else, All, has_prefix, is_seen, is_some,
}
use packrune.Action.{not_found, ok, err, is_ok}
use packrune.Storage.{Backend, ListResult}

-- `object s k` is the content at key `k`; `IsKey` says which keys name objects of their own;
-- `healthy` says that no call to come will fail. The laws on `append` say nothing of the object that a
-- failed call was to extend. A listing that has fewer keys than it may have names the objects: all of them
-- without a prefix, and with one those whose key goes on with a slash behind it.
pub record IsBackend {S : Type 0} (b : Backend S) (object : S → Bytes → Option Bytes)
    (IsKey : Bytes → Type 0) (healthy : S → Bool) : Type 0 where
  pub get_ok : (k c : Bytes) (s : S) → (b.get k s).0 ≡ ok c → object s k ≡ some c
  pub get_missing : (k : Bytes) (s : S) → (b.get k s).0 ≡ err not_found → object s k ≡ none
  pub get_absent :
      (k : Bytes) (s : S)
      → IsKey k
      → healthy s ≡ true
      → object s k ≡ none
      → (b.get k s).0 ≡ err not_found
  pub get_at : (k j : Bytes) (s : S) → object (b.get k s).1 j ≡ object s j
  pub get_total :
      (k c : Bytes) (s : S) → healthy s ≡ true → object s k ≡ some c → (b.get k s).0 ≡ ok c
  pub get_healthy : (k : Bytes) (s : S) → healthy s ≡ true → healthy (b.get k s).1 ≡ true
  pub stat_ok :
      (k : Bytes) (n : ℕ) (s : S) → (b.stat k s).0 ≡ ok n → (c : Bytes) × (object s k ≡ some c)
  pub stat_missing : (k : Bytes) (s : S) → (b.stat k s).0 ≡ err not_found → object s k ≡ none
  pub stat_total :
      (k c : Bytes) (s : S)
      → healthy s ≡ true
      → object s k ≡ some c
      → (b.stat k s).0 ≡ ok (length c)
  pub stat_absent :
      (k : Bytes) (s : S)
      → IsKey k
      → healthy s ≡ true
      → object s k ≡ none
      → (b.stat k s).0 ≡ err not_found
  pub stat_at : (k j : Bytes) (s : S) → object (b.stat k s).1 j ≡ object s j
  pub stat_healthy : (k : Bytes) (s : S) → healthy s ≡ true → healthy (b.stat k s).1 ≡ true
  pub put_at :
      (k body j : Bytes) (s : S)
      → IsKey k
      → IsKey j
      → object (b.put k body s).1 j
        ≡ (if is_ok (b.put k body s).0 && k == j then some body else object s j)
  pub put_ok : (k body : Bytes) (n : ℕ) (s : S) → (b.put k body s).0 ≡ ok n → n ≡ length body
  pub put_total :
      (k body : Bytes) (s : S) → IsKey k → healthy s ≡ true → (b.put k body s).0 ≡ ok (length body)
  pub put_healthy : (k body : Bytes) (s : S) → healthy s ≡ true → healthy (b.put k body s).1 ≡ true
  pub delete_at :
      (k j : Bytes) (s : S)
      → IsKey k
      → IsKey j
      → object (b.delete k s).1 j ≡ (if is_ok (b.delete k s).0 && k == j then none else object s j)
  pub delete_healthy : (k : Bytes) (s : S) → healthy s ≡ true → healthy (b.delete k s).1 ≡ true
  pub delete_total : (k : Bytes) (s : S) → IsKey k → healthy s ≡ true → (b.delete k s).0 ≡ ok tt
  pub append_ok :
      (k body : Bytes) (n : ℕ) (s : S)
      → IsKey k
      → (b.append k body s).0 ≡ ok n
      → (n ≡ length body)
        × (object (b.append k body s).1 k ≡ some (or_else (object s k) [] ++ body))
  pub append_at :
      (k body j : Bytes) (s : S)
      → IsKey k
      → IsKey j
      → (k == j) ≡ false
      → object (b.append k body s).1 j ≡ object s j
  pub append_total :
      (k body : Bytes) (s : S)
      → IsKey k
      → healthy s ≡ true
      → (b.append k body s).0 ≡ ok (length body)
  pub append_healthy :
      (k body : Bytes) (s : S) → healthy s ≡ true → healthy (b.append k body s).1 ≡ true
  pub list_prefix :
      (prefix token : Bytes) (n : ℕ) (s : S) (r : ListResult)
      → (b.list prefix token n s).0 ≡ ok r
      → All (λ (k : Bytes). has_prefix k prefix ≡ true) r.keys
  pub list_at :
      (prefix token : Bytes) (n : ℕ) (j : Bytes) (s : S)
      → object (b.list prefix token n s).1 j ≡ object s j
  pub list_total :
      (n : ℕ) (s : S) → healthy s ≡ true → (r : ListResult) × ((b.list [] [] n s).0 ≡ ok r)
  pub list_total_below :
      (prefix : Bytes) (n : ℕ) (s : S)
      → IsKey prefix
      → healthy s ≡ true
      → (r : ListResult) × ((b.list prefix [] n s).0 ≡ ok r)
  pub list_names :
      (n : ℕ) (k : Bytes) (s : S) (r : ListResult)
      → IsKey k
      → healthy s ≡ true
      → n ≤ 1000
      → length r.keys < n
      → (b.list [] [] n s).0 ≡ ok r
      → is_seen k r.keys ≡ is_some (object s k)
  pub list_below :
      (prefix : Bytes) (n : ℕ) (k : Bytes) (s : S) (r : ListResult)
      → IsKey prefix
      → IsKey k
      → has_prefix k (prefix ++ b'/' ∷ []) ≡ true
      → healthy s ≡ true
      → n ≤ 1000
      → length r.keys < n
      → (b.list prefix [] n s).0 ≡ ok r
      → is_seen k r.keys ≡ is_some (object s k)
