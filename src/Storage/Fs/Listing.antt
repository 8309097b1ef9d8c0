-- ===== src/Storage/Fs/Listing.antt =====
-- `List` of internal/storage/fs/fs.go.
use packrune.Prelude.{
  ℕ, zero, suc, ◌||◌, List, [], ◌∷◌, ◌++◌, Bytes, ◌==◌, ltb, nat_eq, if◌then◌else◌, has_prefix,
  trim_prefix, sort_strings, search_from,
}
use packrune.Action.{Result, ok, Action, ◌>>=◌, ◌>>◌, pure, attempt, is_ok}
use packrune.Storage.{ListResult}
use packrune.Storage.Disk.{Files, Disk, plain_call}
use packrune.Storage.Fs.{Root, path_text, resolve}

-- The paths of the files below a directory.
unfoldable pub below : Bytes → Files → List Bytes
below dir [] = []
below dir ((p, c) ∷ fs) =
    let rest = below dir fs in if has_prefix p (dir ++ b'/' ∷ []) then p ∷ rest else rest

-- The function that Walk is given: the keys relative to the root that begin with `prefix`.
unfoldable pub relative_keys : Bytes → Bytes → List Bytes → List Bytes
relative_keys root prefix [] = []
relative_keys root prefix (p ∷ ps) =
    let key = trim_prefix p (root ++ b'/' ∷ []) in
    let rest = relative_keys root prefix ps in if has_prefix key prefix then key ∷ rest else rest

-- A directory that cannot be looked at has no keys; a walk that fails is an error.
unfoldable pub walk : Bytes → Bytes → Bytes → Action Disk (List Bytes)
walk root dir prefix = do
  seen ← attempt plain_call
  λ d. elim (below dir d.files) [
    | [] ↦ (ok [], d)
    | p ∷ ps ↦
        if is_ok seen
        then (do plain_call; pure (sort_strings (relative_keys root prefix (p ∷ ps)))) d
        else (ok [], d)
  ]

abbrev pub past : Bytes → List Bytes → List Bytes
past token [] = []
past token (k ∷ ks) = if k == token then ks else k ∷ ks

-- The keys behind the cursor.
unfoldable pub after_token : Bytes → List Bytes → List Bytes
after_token [] keys = keys
after_token (c ∷ token) keys = past (c ∷ token) (search_from (c ∷ token) keys)

-- The first `limit` keys, with the last of them as the token if more follow.
unfoldable pub first_page : ℕ → Bytes → List Bytes → ListResult
first_page zero last [] = record { keys = []; next_token = [] }
first_page zero last (k ∷ ks) = record { keys = []; next_token = last }
first_page (suc n) last [] = record { keys = []; next_token = [] }
first_page (suc n) last (k ∷ ks) =
    let rest = first_page n k ks in record { keys = k ∷ rest.keys; next_token = rest.next_token }

abbrev pub page_limit : ℕ → ℕ
page_limit limit = if nat_eq limit 0 || ltb 10000 limit then 1000 else limit

abbrev lift : Result Bytes → Action Disk Bytes
lift r d = (r, d)

unfoldable pub list : Root → Bytes → Bytes → ℕ → Action Disk ListResult
list root prefix token limit = do
  dir ← lift (resolve root prefix)
  keys ← walk (path_text root) dir prefix
  pure (first_page (page_limit limit) [] (after_token token keys))
