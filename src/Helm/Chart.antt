-- ===== src/Helm/Chart.antt =====
-- internal/format/helm/chart.go and index.go: the metadata of charts and the index of a repository.
pub mod Listed
use packrune.Prelude.{
  ℕ, Bool, true, false, not, ◌&&◌, ◌||◌, Option, none, some, List, [], ◌∷◌, ◌++◌, Bytes, codes,
  ◌==◌, nat_eq, split, if◌then◌else◌,
}
use packrune.Action.{Error, io, Result, ok, err}
use packrune.Repo.Tables.{Artifact}

-- chartMetadata; `rest` are the fields that are passed on without being looked at.
pub record Chart (R : Type 0) : Type 0 where
  pub name : Bytes
  pub version : Bytes
  pub rest : R

-- An entry of a tar stream.
pub record TarEntry : Type 0 where
  pub name : Bytes
  pub content : Result Bytes

-- strings.Trim(name, "/"), at the start and at the end
abbrev trim_start : Bytes → Bytes
trim_start [] = []
trim_start (c ∷ s) = let rest = trim_start s in if nat_eq c b'/' then rest else c ∷ s

abbrev keep_unless_slash : ℕ → Bytes → Bytes
keep_unless_slash c [] = if nat_eq c b'/' then [] else c ∷ []
keep_unless_slash c (d ∷ s) = c ∷ d ∷ s

abbrev trim_end : Bytes → Bytes
trim_end [] = []
trim_end (c ∷ s) = keep_unless_slash c (trim_end s)

abbrev is_top_level : List Bytes → Bool
is_top_level [] = false
is_top_level (dir ∷ []) = false
is_top_level (dir ∷ file ∷ []) = file == codes "Chart.yaml"
is_top_level (dir ∷ file ∷ x ∷ xs) = false

-- The test on the parts of the name; what it accepts has the base Chart.yaml, which is tested before.
unfoldable pub is_chart_yaml : Bytes → Bool
is_chart_yaml name = is_top_level (split (trim_end (trim_start name)) b'/')

module _ {R : Type 0} (yaml : Bytes → Option (Chart R)) where
  abbrev complete : Option (Chart R) → Result (Chart R)
  complete none = err io
  complete (some c) = if c.name == [] || c.version == [] then err io else ok c

  abbrev read_chart : Result Bytes → Result (Chart R)
  read_chart (err e) = err e
  read_chart (ok body) = complete (yaml body)

  -- The loop of parseChart over what tar.Reader.Next delivers
  unfoldable pub find_chart : List (Result TarEntry) → Result (Chart R)
  find_chart [] = err io
  find_chart (err e ∷ es) = err e
  find_chart (ok e ∷ es) =
      let rest = find_chart es in if is_chart_yaml e.name then read_chart e.content else rest

  -- parseChart; `untar` is compress/gzip and archive/tar
  unfoldable pub parse_chart : (Bytes → Result (List (Result TarEntry))) → Bytes → Result (Chart R)
  parse_chart untar body = elim (untar body) [ ok entries ↦ find_chart entries | err e ↦ err e ]

-- helmIndexEntry
pub record Entry (R : Type 0) : Type 0 where
  pub chart : Chart R
  pub created : Bytes
  pub digest : Bytes
  pub url : Bytes

-- helmIndex, a map of the names to the entries in the order they are appended.
pub record Index (R : Type 0) : Type 0 where
  pub entries : List (Bytes × List (Entry R))
  pub generated : Bytes
  pub context_path : Bytes

abbrev pub file_name : {R : Type 0} → Chart R → Bytes
file_name c = c.name ++ (codes "-" ++ (c.version ++ codes ".tgz"))

module _ {E : Type 0} where
  -- entries[name] = append(entries[name], e)
  unfoldable pub append_to : Bytes → E → List (Bytes × List E) → List (Bytes × List E)
  append_to name e [] = (name, e ∷ []) ∷ []
  append_to name e ((n, es) ∷ rest) =
      let later = append_to name e rest in
      if n == name then (n, es ++ e ∷ []) ∷ rest else (n, es) ∷ later

  unfoldable pub entries_of : Bytes → List (Bytes × List E) → List E
  entries_of name [] = []
  entries_of name ((n, es) ∷ rest) = if n == name then es else entries_of name rest

module _ {R : Type 0} (json : Bytes → Option (Chart R)) (date : ℕ → Bytes) where
  abbrev entry_of_chart : Artifact → Option (Chart R) → Option (Entry R)
  entry_of_chart a none = none
  entry_of_chart a (some c) =
      if c.name == [] || c.version == []
      then none
      else some
          (record { chart = c; created = date a.created_at; digest = a.digest; url = file_name c })

  -- The entry of a row, if its metadata can be read and name a chart and a version.
  unfoldable pub entry_of : Artifact → Option (Entry R)
  entry_of a = if a.metadata == [] then none else entry_of_chart a (json a.metadata)

  abbrev add_entry :
      Option (Entry R) → List (Bytes × List (Entry R)) → List (Bytes × List (Entry R))
  add_entry none es = es
  add_entry (some e) es = append_to e.chart.name e es

  -- The loop of buildIndex
  unfoldable pub add_entries :
      List Artifact → List (Bytes × List (Entry R)) → List (Bytes × List (Entry R))
  add_entries [] es = es
  add_entries (a ∷ arts) es = add_entries arts (add_entry (entry_of a) es)

  -- buildIndex, before it is printed
  unfoldable pub build_index : List Artifact → Bytes → ℕ → Index R
  build_index arts context_path now = record {
    entries = add_entries arts [];
    generated = date now;
    context_path = context_path;
  }
