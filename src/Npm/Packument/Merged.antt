-- ===== src/Npm/Packument/Merged.antt =====
-- internal/format/npm/packument.go: what a merge keeps, adds and refuses.
use packrune.Prelude.{
  ◌≡◌, ◌⊎◌, inl, inr, refl, Bool, true, false, not, ◌&&◌, ◌||◌, Option, none, some, [], ◌∷◌, arith,
  Bytes, ◌==◌, eq_iff, if◌then◌else◌, is_some, Option-cases,
}
use packrune.Npm.Packument.{
  Map, lookup, insert, Packument, add_versions, overlay, merged, merge_into,
}

module _ {A : Type 0} where
  pub lookup-insert :
      (k j : Bytes) (a : A) (m : Map A)
      → lookup j (insert k a m) ≡ (if k == j then some a else lookup j m)
  unfolding lookup insert
  lookup-insert k j a [] = ground arith
  lookup-insert k j a ((i, b) ∷ m) =
      ground (arith, lookup-insert k j a m, eq_iff i k, eq_iff i j, eq_iff k j)

-- Of two maps the later entries count.
abbrev pub or_lookup : Option Bytes → Option Bytes → Option Bytes
or_lookup (some a) o = some a
or_lookup none o = o

-- Looking up in a list where the last entry of a key counts.
unfoldable pub last_lookup : Bytes → Map Bytes → Option Bytes
last_lookup k [] = none
last_lookup k ((j, a) ∷ m) = or_lookup (last_lookup k m) (if j == k then some a else none)

overlay-lookup :
    (k : Bytes) (base m : Map Bytes)
    → lookup k (overlay base m) ≡ or_lookup (last_lookup k m) (lookup k base)
unfolding overlay last_lookup
overlay-lookup k base [] = refl
overlay-lookup k base ((j, a) ∷ m) = elim (Option-cases (last_lookup k m)) [
  | inl e ↦ ground (arith, e, overlay-lookup k (insert j a base) m, lookup-insert j k a base)
  | inr (v, e) ↦ ground (arith, e, overlay-lookup k (insert j a base) m, lookup-insert j k a base)
]

-- The versions that two documents share.
unfoldable pub shares : Map Bytes → Map Bytes → Bool
shares base [] = false
shares base ((v, meta) ∷ vs) = is_some (lookup v base) || shares base vs

-- A list of entries with keys of their own.
unfoldable pub is_map : Map Bytes → Bool
is_map [] = true
is_map ((v, meta) ∷ vs) = not (is_some (lookup v vs)) && is_map vs

shares-insert :
    (v meta : Bytes) (base vs : Map Bytes)
    → lookup v vs ≡ none
    → shares (insert v meta base) vs ≡ shares base vs
unfolding shares lookup
shares-insert v meta base [] h = refl
shares-insert v meta base ((j, a) ∷ vs) h =
    ground
      (arith, shares-insert v meta base vs, lookup-insert v j meta base, eq_iff v j, eq_iff j v)

add_versions-refuses :
    (base vs : Map Bytes) → is_map vs ≡ true → is_some (add_versions base vs) ≡ not (shares base vs)
unfolding add_versions shares is_map
add_versions-refuses base [] h = refl
add_versions-refuses base ((v, meta) ∷ vs) h = elim (Option-cases (lookup v vs)) [
  | inl e ↦
      ground
        (arith, e, add_versions-refuses (insert v meta base) vs, shares-insert v meta base vs e)
  | inr (a, e) ↦ absurd (ground (arith, e))
]

add_versions-lookup :
    (k : Bytes) (base vs m : Map Bytes)
    → is_map vs ≡ true
    → add_versions base vs ≡ some m
    → lookup k m ≡ or_lookup (lookup k base) (lookup k vs)
unfolding add_versions is_map lookup
add_versions-lookup k base [] m h e = ground (arith, e)
add_versions-lookup k base ((v, meta) ∷ vs) m h e = elim (Option-cases (lookup v vs)) [
  | inr (a, f) ↦ absurd (ground (arith, f))
  | inl f ↦ elim (Option-cases (lookup v base)) [
    | inr (a, g) ↦ absurd (ground (arith, g))
    | inl g ↦ ground (
      arith,
      f,
      g,
      add_versions-lookup k (insert v meta base) vs m,
      lookup-insert v k meta base,
      eq_iff v k,
    )
  ]
]

-- A publish is merged exactly if no version of it is there already, and then every version that was
-- there has the metadata it had, every version of the publish has the metadata of the publish, there
-- is no other one, and a tag names what the publish says, or else what it named before. The versions
-- of the publish are a map: each occurs once.
pub merge_into-versions :
    (k tag : Bytes) (p base : Packument)
    → is_map p.versions ≡ true
    → ((shares base.versions p.versions ≡ true) × (merge_into p base ≡ none))
      ⊎ ((m : Packument) × (shares base.versions p.versions ≡ false)
          × (merge_into p base ≡ some m)
          × (lookup k m.versions ≡ or_lookup (lookup k base.versions) (lookup k p.versions))
          × (lookup tag m.dist_tags
              ≡ or_lookup (last_lookup tag p.dist_tags) (lookup tag base.dist_tags)))
unfolding merge_into
merge_into-versions k tag p base h =
    let whole = add_versions-refuses base.versions p.versions h in
    elim (Option-cases (add_versions base.versions p.versions)) [
      | inl e ↦ inl (ground (arith, e, whole), rw e refl)
      | inr (vs, e) ↦
          let m = merged p base vs in
          inr (
            m,
            ground (arith, e, whole),
            rw e refl,
            add_versions-lookup k base.versions p.versions vs h e,
            overlay-lookup tag base.dist_tags p.dist_tags,
          )
    ]
