-- ===== src/Repo/Listing.antt =====
-- ResolveArtifactsByPrefix of internal/repo/store.go: the listings of a group's members, combined.
pub mod Shadowing
use packrune.Prelude.{
  ℕ, ◌≡◌, ◌≢◌, ◌⊎◌, inl, inr, refl, ap, ◌∙◌, Bool, true, false, not, ◌&&◌, ◌||◌, Option, none, some,
  List, [], ◌∷◌, ◌++◌, append_assoc, append-nil, arith, Bytes, codes, length, ◌==◌, eq_iff, ==_refl,
  if◌then◌else◌, is_seen, Option-cases, Bool-cases,
}
use packrune.Action.{
  Error, not_found, io, Result, ok, err, Action, is_ok, Result-cases, attempt, raise, pure, ◌>>=◌,
}
use packrune.Repo.Tables.{Repository, Artifact, Db, Engine, fault, after_call, query, kind_group}
use packrune.Repo.Store.{get, get_by_id, list_artifacts_by_prefix}

-- The map `seen` and the slice `combined`.
pub record Combined : Type 0 where
  pub seen : List Bytes
  pub rows : List Artifact

abbrev add_row : Artifact → Combined → Combined
add_row a c =
    if is_seen a.path c.seen then c else record { seen = a.path ∷ c.seen; rows = c.rows ++ a ∷ [] }

unfoldable pub add_rows : List Artifact → Combined → Combined
add_rows [] c = c
add_rows (a ∷ rest) c = add_rows rest (add_row a c)

-- The direct rows are all kept.
unfoldable pub add_direct : List Artifact → Combined → Combined
add_direct [] c = c
add_direct (a ∷ rest) c =
    add_direct rest (record { seen = a.path ∷ c.seen; rows = c.rows ++ a ∷ [] })

module _ (engine : Engine) (prefix : Bytes) where
  unfoldable pub add_members : Bytes → List Bytes → Combined → Action Db Combined
  add_members format [] c db = (ok c, db)
  add_members format (name ∷ names) c db =
      let (member, db1) = get name format db in
      elim member [
        | err e ↦ add_members format names c db1
        | ok m ↦
            let (items, db2) = list_artifacts_by_prefix engine m.id prefix db1 in
            elim items [
              | ok rows ↦ add_members format names (add_rows rows c) db2
              | err e ↦ add_members format names c db2
            ]
      ]

  module _ (members : Bytes → List Bytes) where
    abbrev combine : List Artifact → Repository → Action Db (List Artifact)
    combine direct parent db =
        if parent.kind == kind_group
        then (do
          c ←
              add_members parent.format (members parent.config)
                (add_direct direct (record { seen = []; rows = [] }))
          pure c.rows)
            db
        else (ok direct, db)

    abbrev with_parent : List Artifact → Result Repository → Action Db (List Artifact)
    with_parent direct (ok parent) db = combine direct parent db
    with_parent direct (err e) db = elim e [ not_found ↦ (ok direct, db) | f ↦ (err f, db) ]

    -- ResolveArtifactsByPrefix
    unfoldable pub resolve_artifacts_by_prefix : Bytes → Action Db (List Artifact)
    resolve_artifacts_by_prefix repo = do
      direct ← list_artifacts_by_prefix engine repo prefix
      parent ← attempt (get_by_id repo)
      with_parent direct parent

-- The first row of a listing with a path.
unfoldable pub find_path : Bytes → List Artifact → Option Artifact
find_path p [] = none
find_path p (a ∷ rows) = if a.path == p then some a else find_path p rows

abbrev or_else_row : Option Artifact → Option Artifact → Option Artifact
or_else_row (some a) o = some a
or_else_row none o = o

find_path-append :
    (p : Bytes) (xs ys : List Artifact)
    → find_path p (xs ++ ys) ≡ or_else_row (find_path p xs) (find_path p ys)
unfolding find_path
find_path-append p [] ys = ground arith
find_path-append p (a ∷ xs) ys = ground (arith, find_path-append p xs ys)

abbrev is_some : Option Artifact → Bool
is_some none = false
is_some (some a) = true

-- `seen` is the set of the paths that are listed.
abbrev Agrees : Combined → Type 0
Agrees c = (p : Bytes) → is_seen p c.seen ≡ is_some (find_path p c.rows)

add_row-Agrees : (a : Artifact) (c : Combined) → Agrees c → Agrees (add_row a c)
unfolding is_seen find_path
add_row-Agrees a c h p =
    ground (arith, h p, h a.path, find_path-append p c.rows (a ∷ []), eq_iff a.path p)

find_path-add_row :
    (p : Bytes) (a : Artifact) (c : Combined)
    → Agrees c
    → find_path p (add_row a c).rows ≡ find_path p (c.rows ++ a ∷ [])
unfolding find_path
find_path-add_row p a c h =
    ground (arith, h a.path, find_path-append p c.rows (a ∷ []), eq_iff a.path p)

-- What `add_rows` lists at a path: what was listed before, or else the first of the new rows.
add_rows_lem :
    (rows : List Artifact) (c : Combined) (p : Bytes)
    → Agrees c
    → Agrees (add_rows rows c)
      × (find_path p (add_rows rows c).rows ≡ or_else_row (find_path p c.rows) (find_path p rows))
unfolding add_rows find_path
add_rows_lem [] c p h = (h, ground arith)
add_rows_lem (a ∷ rest) c p h =
    let rec = add_rows_lem rest (add_row a c) p (add_row-Agrees a c h) in
    (rec.0, ground (arith, rec.1, find_path-add_row p a c h, find_path-append p c.rows (a ∷ [])))

-- No path is listed twice.
abbrev pub IsDistinct : List Artifact → Type 0
IsDistinct [] = Unit
IsDistinct (a ∷ rows) = (find_path a.path rows ≡ none) × IsDistinct rows

IsDistinct-append :
    (xs : List Artifact) (a : Artifact)
    → IsDistinct xs
    → find_path a.path xs ≡ none
    → IsDistinct (xs ++ a ∷ [])
unfolding find_path
IsDistinct-append [] a d h = (refl, tt)
IsDistinct-append (x ∷ xs) a (dx, d) h = (
  ground (arith, find_path-append x.path xs (a ∷ []), eq_iff x.path a.path, eq_iff a.path x.path),
  IsDistinct-append xs a d (ground arith),
)

add_rows-IsDistinct :
    (rows : List Artifact) (c : Combined)
    → Agrees c
    → IsDistinct c.rows
    → IsDistinct (add_rows rows c).rows
unfolding add_rows
add_rows-IsDistinct [] c h d = d
add_rows-IsDistinct (a ∷ rest) c h d =
    add_rows-IsDistinct rest (add_row a c) (add_row-Agrees a c h)
      (elim (Bool-cases (is_seen a.path c.seen)) [
        | inl e ↦ rw e d
        | inr e ↦ rw e (IsDistinct-append c.rows a d (ground (arith, h a.path)))
      ])

add_direct_lem :
    (rows : List Artifact) (c : Combined)
    → Agrees c
    → Agrees (add_direct rows c) × ((add_direct rows c).rows ≡ c.rows ++ rows)
unfolding add_direct
add_direct_lem [] c h = (h, rw append-nil)
add_direct_lem (a ∷ rest) c h =
    let c' : Combined = record { seen = a.path ∷ c.seen; rows = c.rows ++ a ∷ [] } in
    let rec = add_direct_lem rest c' (λ p.
      unfold is_seen find_path in
      ground (arith, h p, find_path-append p c.rows (a ∷ []), eq_iff a.path p)) in
    (rec.0, rec.1 ∙ append_assoc c.rows (a ∷ []) rest)
