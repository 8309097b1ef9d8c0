-- ===== src/Repo/Resolve.antt =====
-- ResolveArtifact of internal/repo/store.go: group repositories answer from their members.
use packrune.Prelude.{
  ◌≡◌, inl, inr, refl, Option, none, some, List, [], ◌∷◌, arith, Bytes, ◌==◌, if◌then◌else◌,
  Option-cases, Bool-cases,
}
use packrune.Action.{not_found, Result, ok, err, Action, attempt, ◌>>=◌}
use packrune.Repo.Tables.{Repository, Artifact, Db, kind_group}
use packrune.Repo.Store.{find_repository, has_name, get, get_by_id, get_artifact, row}
use packrune.Repo.Rows.{find_in}

-- The loop over the members: one that is missing, or cannot be read, is passed over.
unfoldable pub first_member : Bytes → Bytes → List Bytes → Action Db Artifact
first_member format path [] db = (err not_found, db)
first_member format path (name ∷ names) db =
    let (member, db1) = get name format db in
    elim member [
      | err e ↦ first_member format path names db1
      | ok m ↦
          let (art, db2) = get_artifact m.id path db1 in
          elim art [ ok a ↦ (ok a, db2) | err e ↦ first_member format path names db2 ]
    ]

-- `members` is what encoding/json reads from the `members` field of a repository's Config.
module _ (members : Bytes → List Bytes) where
  abbrev from_members : Bytes → Repository → Action Db Artifact
  from_members path parent db =
      if parent.kind == kind_group
      then first_member parent.format path (members parent.config) db
      else (err not_found, db)

  abbrev or_members : Bytes → Bytes → Result Artifact → Action Db Artifact
  or_members repo path (ok a) db = (ok a, db)
  or_members repo path (err e) db = elim e [
    | not_found ↦ (do p ← get_by_id repo; from_members path p) db
    | f ↦ (err f, db)
  ]

  -- ResolveArtifact
  unfoldable pub resolve_artifact : Bytes → Bytes → Action Db Artifact
  resolve_artifact repo path = do
    direct ← attempt (get_artifact repo path)
    or_members repo path direct

-- The specification, on the tables alone: a repository's own row first, then the first member, in
-- the configured order, that has the path.
abbrev hit : Db → Bytes → Option Repository → Option Artifact
hit db path none = none
hit db path (some m) = find_in db m.id path

unfoldable pub member_hit : Db → Bytes → Bytes → Bytes → Option Artifact
member_hit db format path name =
    hit db path (find_repository (has_name name format) db.repositories)

abbrev or_else_hit : Option Artifact → Option Artifact → Option Artifact
or_else_hit (some a) o = some a
or_else_hit none o = o

unfoldable pub first_hit : Db → Bytes → Bytes → List Bytes → Option Artifact
first_hit db format path [] = none
first_hit db format path (n ∷ ns) =
    let later = first_hit db format path ns in or_else_hit (member_hit db format path n) later

abbrev group_hit : Db → Bytes → (Bytes → List Bytes) → Option Repository → Option Artifact
group_hit db path members none = none
group_hit db path members (some p) =
    if p.kind == kind_group then first_hit db p.format path (members p.config) else none

unfoldable pub visible : (Bytes → List Bytes) → Db → Bytes → Bytes → Option Artifact
visible members db repo path =
    or_else_hit (find_in db repo path)
      (group_hit db path members (find_repository (λ r. r.id == repo) db.repositories))

-- With no query failing, a query leaves the database as it was.
module _ (db : Db) (calm : db.faults ≡ []) where
  pub get_calm :
      (name format : Bytes)
      → get name format db ≡ (row (find_repository (has_name name format) db.repositories), db)
  unfolding get
  get_calm name format = ground arith

  pub get_by_id_calm :
      (id : Bytes) → get_by_id id db ≡ (row (find_repository (λ r. r.id == id) db.repositories), db)
  unfolding get_by_id
  get_by_id_calm id = ground arith

  pub get_artifact_calm :
      (repo path : Bytes) → get_artifact repo path db ≡ (row (find_in db repo path), db)
  unfolding get_artifact
  get_artifact_calm repo path = ground arith

first_member_calm :
    (format path : Bytes) (names : List Bytes) (db : Db)
    → db.faults ≡ []
    → first_member format path names db ≡ (row (first_hit db format path names), db)
unfolding first_member first_hit member_hit
first_member_calm format path [] db h = refl
first_member_calm format path (n ∷ ns) db h =
    elim (Option-cases (find_repository (has_name n format) db.repositories)) [
      | inl e ↦ ground (arith, get_calm db h n format, first_member_calm format path ns db h)
      | inr (m, e) ↦ ground (
        arith,
        get_calm db h n format,
        get_artifact_calm db h m.id path,
        first_member_calm format path ns db h,
      )
    ]

module _ (members : Bytes → List Bytes) where
  -- When no query fails, ResolveArtifact answers what the specification shows at the path, or that
  -- there is nothing, and leaves the database as it was.
  pub resolve_artifact-visible :
      (repo path : Bytes) (db : Db)
      → db.faults ≡ []
      → resolve_artifact members repo path db ≡ (row (visible members db repo path), db)
  unfolding resolve_artifact visible
  resolve_artifact-visible repo path db h =
      rw (get_artifact_calm db h repo path) (elim (Option-cases (find_in db repo path)) [
        | inr (a, e) ↦ rw e
        | inl e ↦
            rw (e, get_by_id_calm db h repo)
              (elim (Option-cases (find_repository (λ r. r.id == repo) db.repositories)) [
                | inl f ↦ rw f
                | inr (p, f) ↦ rw f (elim (Bool-cases (p.kind == kind_group)) [
                  | inl g ↦ rw g (first_member_calm p.format path (members p.config) db h)
                  | inr g ↦ rw g
                ])
              ])
      ])
