-- ===== src/Repo/Listing/Shadowing.antt =====
-- What a group's combined listing shows: each path once, direct rows before members, and earlier
-- members before later ones.
use packrune.Prelude.{
  ◌≡◌, inl, inr, refl, Option, none, some, List, [], ◌∷◌, ◌++◌, append-nil, arith, Bytes, codes,
  ◌==◌, if◌then◌else◌, Option-cases, Bool-cases, is_seen,
}
use packrune.Action.{ok}
use packrune.Repo.Tables.{Repository, Artifact, Db, Engine, kind_group}
use packrune.Repo.Store.{find_repository, has_name, matching, list_artifacts_by_prefix}
use packrune.Repo.Resolve.{get_calm, get_by_id_calm}
use packrune.Repo.Listing.{
  Combined, Agrees, add_rows, add_members, add_direct, find_path, find_path-append, or_else_row,
  add_rows_lem, add_rows-IsDistinct, add_direct_lem, IsDistinct, resolve_artifacts_by_prefix,
}

module _ (engine : Engine) (prefix : Bytes) where
  -- The rows of one repository under the prefix.
  unfoldable pub rows_of : Db → Bytes → List Artifact
  rows_of db repo = engine.order_by_path (matching engine repo (prefix ++ codes "%") db.artifacts)

  abbrev rows_of_member : Db → Option Repository → List Artifact
  rows_of_member db none = []
  rows_of_member db (some m) = rows_of db m.id

  -- The rows of the members, one after the other.
  unfoldable pub member_rows : Db → Bytes → List Bytes → List Artifact
  member_rows db format [] = []
  member_rows db format (n ∷ ns) =
      rows_of_member db (find_repository (has_name n format) db.repositories)
      ++ member_rows db format ns

  pub list_calm :
      (repo : Bytes) (db : Db)
      → db.faults ≡ []
      → list_artifacts_by_prefix engine repo prefix db ≡ (ok (rows_of db repo), db)
  unfolding list_artifacts_by_prefix rows_of
  list_calm repo db h = ground arith

  -- The combined rows that the loop over the members ends with.
  unfoldable pub combined : Db → Bytes → List Bytes → Combined → Combined
  combined db format [] c = c
  combined db format (n ∷ ns) c =
      combined db format ns
        (add_rows (rows_of_member db (find_repository (has_name n format) db.repositories)) c)

  add_members_calm :
      (format : Bytes) (names : List Bytes) (c : Combined) (db : Db)
      → db.faults ≡ []
      → add_members engine prefix format names c db ≡ (ok (combined db format names c), db)
  unfolding add_members combined add_rows
  add_members_calm format [] c db h = refl
  add_members_calm format (n ∷ ns) c db h =
      elim (Option-cases (find_repository (has_name n format) db.repositories)) [
        | inl e ↦ ground (arith, get_calm db h n format, add_members_calm format ns c db h)
        | inr (m, e) ↦ ground (
          arith,
          get_calm db h n format,
          list_calm m.id db h,
          add_members_calm format ns (add_rows (rows_of db m.id) c) db h,
        )
      ]

  combined_lem :
      (format : Bytes) (names : List Bytes) (c : Combined) (db : Db) (p : Bytes)
      → Agrees c
      → find_path p (combined db format names c).rows
        ≡ or_else_row (find_path p c.rows) (find_path p (member_rows db format names))
  unfolding combined member_rows
  combined_lem format [] c db p h = unfold find_path in ground arith
  combined_lem format (n ∷ ns) c db p h =
      let rows = rows_of_member db (find_repository (has_name n format) db.repositories) in
      let one = add_rows_lem rows c p h in
      ground (
        arith,
        one.1,
        combined_lem format ns (add_rows rows c) db p one.0,
        find_path-append p rows (member_rows db format ns),
      )

  combined-IsDistinct :
      (format : Bytes) (names : List Bytes) (c : Combined) (db : Db)
      → Agrees c
      → IsDistinct c.rows
      → IsDistinct (combined db format names c).rows
  unfolding combined
  combined-IsDistinct format [] c db h d = d
  combined-IsDistinct format (n ∷ ns) c db h d =
      let rows = rows_of_member db (find_repository (has_name n format) db.repositories) in
      combined-IsDistinct format ns (add_rows rows c) db (add_rows_lem rows c [] h).0
        (add_rows-IsDistinct rows c h d)

  -- The rows that a repository shows under the prefix, one list behind the other: its own, and for
  -- a group those of its members in the configured order.
  abbrev with_members : (Bytes → List Bytes) → Db → Option Repository → List Artifact
  with_members members db none = []
  with_members members db (some p) =
      if p.kind == kind_group then member_rows db p.format (members p.config) else []

  unfoldable pub all_rows : (Bytes → List Bytes) → Db → Bytes → List Artifact
  all_rows members db repo =
      rows_of db repo
      ++ with_members members db (find_repository (λ r. r.id == repo) db.repositories)

  start : Combined
  start = record { seen = []; rows = [] }

  -- When no query fails, and the repository's own listing names no path twice, the listing is a
  -- list of rows that names no path twice, and shows at each path the first row that the
  -- repository's own rows and then its members' rows, in order, have there.
  pub resolve_artifacts_by_prefix_lem :
      (members : Bytes → List Bytes) (repo : Bytes) (db : Db)
      → db.faults ≡ []
      → IsDistinct (rows_of db repo)
      → (rows : List Artifact) × (resolve_artifacts_by_prefix engine prefix members repo db
          ≡ (ok rows, db))
        × IsDistinct rows
        × ((p : Bytes) → find_path p rows ≡ find_path p (all_rows members db repo))
  unfolding resolve_artifacts_by_prefix all_rows
  resolve_artifacts_by_prefix_lem members repo db h d =
      let own = rows_of db repo in
      elim (Option-cases (find_repository (λ r. r.id == repo) db.repositories)) [
        | inl e ↦ (
          own,
          ground (arith, list_calm repo db h, get_by_id_calm db h repo),
          d,
          λ p. rw (e, append-nil),
        )
        | inr (parent, e) ↦ elim (Bool-cases (parent.kind == kind_group)) [
          | inr g ↦ (
            own,
            ground (arith, list_calm repo db h, get_by_id_calm db h repo),
            d,
            λ p. rw (e, g, append-nil),
          )
          | inl g ↦
              let c = add_direct own (record { seen = []; rows = [] }) in
              let direct =
                add_direct_lem own (record { seen = []; rows = [] })
                  (λ p. unfold is_seen find_path in refl) in
              (
                (combined db parent.format (members parent.config) c).rows,
                ground (
                  arith,
                  list_calm repo db h,
                  get_by_id_calm db h repo,
                  add_members_calm parent.format (members parent.config) c db h,
                ),
                combined-IsDistinct parent.format (members parent.config) c db direct.0
                    (rw direct.1 d),
                λ p. ground (
                  arith,
                  direct.1,
                  combined_lem parent.format (members parent.config) c db p direct.0,
                  find_path-append p own (member_rows db parent.format (members parent.config)),
                ),
              )
        ]
      ]
