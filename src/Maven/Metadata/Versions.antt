-- ===== src/Maven/Metadata/Versions.antt =====
-- internal/format/maven/handler.go: which versions the document of an artifact lists, and in which order.
use mathlib.Core.List.{Memᴰ}
use packrune.Prelude.{
  ◌≡◌, ◌≢◌, ◌⊎◌, inl, inr, refl, sym, ap, ◌∙◌, true, Option, none, some, List, [], ◌∷◌, ◌++◌, arith,
  Bytes, codes, ◌==◌, eq_iff, eq_of_==, ==_refl, All, cut, eq_of_cut, strip_prefix?-append, IsField,
  cut_field, cut-IsField, trim_prefix, Bool-cases, less, less_trans, sort_strings, is_seen,
  distinct, ascending, ascending-sort, is_seen-sort,
}
use packrune.Repo.Tables.{Artifact}
use packrune.Maven.Path.{Coordinates}
use packrune.Maven.Metadata.{
  Metadata, add_version, version_set, last_version, metadata_of, metadata_for,
}

add_version_sound :
    (o : Option (Bytes × Bytes)) (v : Bytes) (vs : List Bytes)
    → is_seen v (add_version o vs) ≡ true
    → ((file : Bytes) × (o ≡ some (v, file))) ⊎ (is_seen v vs ≡ true)
unfolding is_seen
add_version_sound none v vs h = inr h
add_version_sound (some ([], file)) v vs h = inr h
add_version_sound (some (c ∷ x, file)) v vs h = elim (Bool-cases ((c ∷ x) == v)) [
  | inl e ↦ inl (file, ap (λ (z : Bytes). some (z, file)) (eq_of_== (c ∷ x) v e))
  | inr e ↦ inr (ground (arith, e))
]

add_version_complete :
    (o : Option (Bytes × Bytes)) (v file : Bytes) (vs : List Bytes)
    → v ≢ []
    → o ≡ some (v, file)
    → is_seen v (add_version o vs) ≡ true
unfolding is_seen
add_version_complete o [] file vs n e = absurd (n refl)
add_version_complete o (c ∷ x) file vs n e = rw e (ground (arith, ==_refl (c ∷ x)))

add_version-keeps :
    (o : Option (Bytes × Bytes)) (v : Bytes) (vs : List Bytes)
    → is_seen v vs ≡ true
    → is_seen v (add_version o vs) ≡ true
unfolding is_seen
add_version-keeps none v vs h = h
add_version-keeps (some ([], file)) v vs h = h
add_version-keeps (some (c ∷ x, file)) v vs h = ground (arith, h)

add_version-distinct :
    (o : Option (Bytes × Bytes)) (vs : List Bytes)
    → distinct vs ≡ true
    → distinct (add_version o vs) ≡ true
unfolding distinct
add_version-distinct none vs h = h
add_version-distinct (some ([], file)) vs h = h
add_version-distinct (some (c ∷ x, file)) vs h = ground (arith, h)

module _ (prefix : Bytes) where
  -- The path of a row spells the version, with a file behind it.
  abbrev pub Spells : Bytes → Artifact → Type 0
  Spells v a = (file : Bytes) × (a.path ≡ prefix ++ (v ++ b'/' ∷ file))

  -- The rows stand under the prefix.
  abbrev pub IsUnder : List Artifact → Type 0
  IsUnder arts = All (λ (a : Artifact). (rest : Bytes) × (a.path ≡ prefix ++ rest)) arts

  trimmed : (s rest : Bytes) → s ≡ prefix ++ rest → trim_prefix s prefix ≡ rest
  unfolding trim_prefix
  trimmed s rest e = rw (e, strip_prefix?-append prefix rest) refl

  version_set_sound :
      (v : Bytes) (arts : List Artifact)
      → IsUnder arts
      → is_seen v (version_set prefix arts) ≡ true
      → IsField v × (a : Artifact) × Memᴰ a arts × Spells v a
  unfolding version_set is_seen
  version_set_sound v [] u h = cc
  version_set_sound v (a ∷ arts) ((rest, e), u) h =
      elim (add_version_sound (cut (trim_prefix a.path prefix) (codes "/")) v
        (version_set prefix arts) h) [
          | inl (file, k) ↦
              let at_rest : cut rest (codes "/") ≡ some (v, file) =
                ap (λ (z : Bytes). cut z (codes "/")) (sym (trimmed a.path rest e)) ∙ k in
              (
                cut-IsField rest v file at_rest,
                a,
                Memᴰ.head refl,
                (
                  file,
                  e ∙ ap (λ (z : Bytes). prefix ++ z) (eq_of_cut rest (codes "/") v file at_rest),
                ),
              )
          | inr k ↦
              let found = version_set_sound v arts u k in
              (found.0, found.1, Memᴰ.tail found.2, found.3)
        ]

  version_set_complete :
      (v : Bytes) (arts : List Artifact) (a : Artifact)
      → v ≢ []
      → IsField v
      → Memᴰ a arts
      → Spells v a
      → is_seen v (version_set prefix arts) ≡ true
  unfolding version_set
  version_set_complete v [] a n f m s = elim m [ ]
  version_set_complete v (x ∷ arts) a n f (Memᴰ.head e) (file, s) =
      add_version_complete (cut (trim_prefix x.path prefix) (codes "/")) v file
        (version_set prefix arts) n
        (ap (λ (z : Bytes). cut z (codes "/"))
            (trimmed x.path (v ++ b'/' ∷ file) (ap (λ (y : Artifact). y.path) (sym e) ∙ s))
          ∙ cut_field v file f)
  version_set_complete v (x ∷ arts) a n f (Memᴰ.tail m) s =
      add_version-keeps (cut (trim_prefix x.path prefix) (codes "/")) v (version_set prefix arts)
        (version_set_complete v arts a n f m s)

  version_set-distinct : (arts : List Artifact) → distinct (version_set prefix arts) ≡ true
  unfolding version_set distinct
  version_set-distinct [] = refl
  version_set-distinct (a ∷ arts) =
      add_version-distinct (cut (trim_prefix a.path prefix) (codes "/")) (version_set prefix arts)
        (version_set-distinct arts)

-- The last of ascending texts is one of them, and none comes after it.
last_version-greatest :
    (v x : Bytes) (xs : List Bytes)
    → ascending (x ∷ xs) ≡ true
    → is_seen v (x ∷ xs) ≡ true
    → (v ≡ last_version x xs) ⊎ (less v (last_version x xs) ≡ true)
unfolding ascending is_seen last_version
last_version-greatest v x [] h m = inl (ground (arith, eq_iff x v))
last_version-greatest v x (y ∷ ys) h m = elim (Bool-cases (x == v)) [
  | inr e ↦ last_version-greatest v y ys (ground (arith, h)) (ground (arith, m, e))
  | inl e ↦ elim (last_version-greatest y y ys (ground (arith, h)) (ground (arith, ==_refl y))) [
    | inl k ↦ inr (ground (arith, h, e, eq_of_== x v e, k))
    | inr k ↦ inr (less_trans v y (last_version y ys) (ground (arith, h, eq_of_== x v e)) k)
  ]
]

-- What a document of versions lists.
pub record Lists (prefix : Bytes) (arts : List Artifact) (m : Metadata) : Type 0 where
  pub strict : ascending m.versions ≡ true
  pub sound :
      (v : Bytes)
      → is_seen v m.versions ≡ true
      → IsField v × (a : Artifact) × Memᴰ a arts × Spells prefix v a
  pub complete :
      (v : Bytes) (a : Artifact)
      → v ≢ []
      → IsField v
      → Memᴰ a arts
      → Spells prefix v a
      → is_seen v m.versions ≡ true
  pub greatest :
      (v : Bytes) → is_seen v m.versions ≡ true → (v ≡ m.latest) ⊎ (less v m.latest ≡ true)

-- The document of the rows under a prefix lists the versions that their paths spell and no others,
-- each once and in the order of Go strings; its latest version is the greatest in that order.
pub metadata_for-Lists :
    (c : Coordinates) (now prefix : Bytes) (arts : List Artifact) (m : Metadata)
    → IsUnder prefix arts
    → metadata_for c now prefix arts ≡ some m
    → Lists prefix arts m
unfolding metadata_for
metadata_for-Lists c now prefix arts m under h =
    of_sorted (sort_strings (version_set prefix arts)) refl h
  where
    of_sorted :
        (vs : List Bytes)
        → sort_strings (version_set prefix arts) ≡ vs
        → metadata_of c now vs ≡ some m
        → Lists prefix arts m
    of_sorted [] e k = cc
    of_sorted (v ∷ vs) e k =
        let listed : m.versions ≡ v ∷ vs = ground (arith, k) in
        let last_ : m.latest ≡ last_version v vs = ground (arith, k) in
        let set_ = version_set prefix arts in
        let order : ascending (v ∷ vs) ≡ true =
          ap (λ (l : List Bytes). ascending l) (sym e)
          ∙ ascending-sort set_ (version_set-distinct prefix arts) in
        let seen : (x : Bytes) → is_seen x m.versions ≡ is_seen x set_ =
          λ x. ap (λ (l : List Bytes). is_seen x l) (listed ∙ sym e) ∙ is_seen-sort x set_ in
        record {
          strict = rw listed order;
          sound = λ x s. version_set_sound prefix x arts under (sym (seen x) ∙ s);
          complete = λ x a n f i s. seen x ∙ version_set_complete prefix x arts a n f i s;
          greatest = λ x s. rw last_ (
              last_version-greatest x v vs order
                (ap (λ (l : List Bytes). is_seen x l) (sym listed) ∙ s));
        }
