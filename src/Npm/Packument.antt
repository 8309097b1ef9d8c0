-- ===== src/Npm/Packument.antt =====
-- internal/format/npm/packument.go: the document of a package, and how a publish is merged into it.
pub mod Merged
use packrune.Prelude.{
  ℕ, Bool, true, false, Option, none, some, List, [], ◌∷◌, Bytes, ◌==◌, if◌then◌else◌, is_some,
}
use packrune.Action.{bad_name, Result, ok, err}

-- A map of the source, in the order in which it is ranged over.
abbrev pub Map : Type 0 → Type 0
Map A = List (Bytes × A)

module _ {A : Type 0} where
  unfoldable pub lookup : Bytes → Map A → Option A
  lookup k [] = none
  lookup k ((j, a) ∷ m) = let rest = lookup k m in if j == k then some a else rest

  unfoldable pub insert : Bytes → A → Map A → Map A
  insert k a [] = (k, a) ∷ []
  insert k a ((j, b) ∷ m) = let rest = insert k a m in if j == k then (k, a) ∷ m else (j, b) ∷ rest

-- attachment, less the fields that are not read
pub record Attachment : Type 0 where
  pub content_type : Bytes
  pub data_ : Bytes

-- packument; the JSON text of a version's metadata and of a maintainer is kept as it is.
pub record Packument : Type 0 where
  pub id : Bytes
  pub name : Bytes
  pub description : Bytes
  pub dist_tags : Map Bytes
  pub versions : Map Bytes
  pub readme : Bytes
  pub maintainers : List Bytes
  pub time : Map Bytes
  pub attachments : Map Attachment

-- &packument{Name: name}
abbrev pub named : Bytes → Packument
named name = record {
  id = [];
  name = name;
  description = [];
  dist_tags = [];
  versions = [];
  readme = [];
  maintainers = [];
  time = [];
  attachments = [];
}

-- What encoding/json makes of a document: a value that was filled from it, and whether there was no error.
abbrev pub Unmarshal : Type 0
Unmarshal = Bytes → Packument → Packument × Bool

abbrev with_name : Packument → Result Packument
with_name p = if p.name == [] then err bad_name else ok p

-- parsePackument
unfoldable pub parse_packument : Unmarshal → Bytes → Result Packument
parse_packument unmarshal body =
    let (p, good) = unmarshal body (named []) in if good then with_name p else err bad_name

-- The loop over the versions, which ends at one that is there.
unfoldable pub add_versions : Map Bytes → Map Bytes → Option (Map Bytes)
add_versions base [] = some base
add_versions base ((v, meta) ∷ vs) =
    let rest = add_versions (insert v meta base) vs in
    if is_some (lookup v base) then none else rest

-- for k, v := range m { base[k] = v }
unfoldable pub overlay : Map Bytes → Map Bytes → Map Bytes
overlay base [] = base
overlay base ((k, v) ∷ m) = overlay (insert k v base) m

abbrev or_old : Bytes → Bytes → Bytes
or_old [] old = old
or_old (c ∷ s) old = c ∷ s

abbrev or_old_list : List Bytes → List Bytes → List Bytes
or_old_list [] old = old
or_old_list (x ∷ xs) old = x ∷ xs

abbrev merged : Packument → Packument → Map Bytes → Packument
merged p base vs = record {
  id = or_old base.id p.id;
  name = or_old base.name p.name;
  description = or_old p.description base.description;
  dist_tags = overlay base.dist_tags p.dist_tags;
  versions = vs;
  readme = or_old p.readme base.readme;
  maintainers = or_old_list p.maintainers base.maintainers;
  time = overlay base.time p.time;
  attachments = base.attachments;
}

abbrev with_versions : Packument → Packument → Option (Map Bytes) → Option Packument
with_versions p base none = none
with_versions p base (some vs) = some (merged p base vs)

-- mergeInto; on the error the base is thrown away by the caller.
unfoldable pub merge_into : Packument → Packument → Option Packument
merge_into p base = with_versions p base (add_versions base.versions p.versions)

-- marshal; `print` is json.MarshalIndent.
unfoldable pub marshal : (Packument → Option Bytes) → Packument → Option Bytes
marshal print p = print (record p { attachments = [] })
