-- ===== src/Helm/Chart/Listed.antt =====
-- internal/format/helm/index.go: which charts the index lists under a name.
use packrune.Prelude.{
  ℕ, ◌≡◌, refl, sym, ◌∙◌, Option, none, some, List, [], ◌∷◌, ◌++◌, append_assoc, append-nil, arith,
  Bytes, ◌==◌, eq_iff, if◌then◌else◌, inl, inr, Bool-cases, Option-cases,
}
use packrune.Repo.Tables.{Artifact}
use packrune.Helm.Chart.{Chart, Entry, append_to, entries_of, entry_of, add_entries, build_index}

module _ {R : Type 0} (json : Bytes → Option (Chart R)) (date : ℕ → Bytes) where
  abbrev and_rest : Bytes → Option (Entry R) → List (Entry R) → List (Entry R)
  and_rest name none rest = rest
  and_rest name (some e) rest = if e.chart.name == name then e ∷ rest else rest

  -- The entries of the rows whose chart has the name, in the order of the rows.
  unfoldable pub named_entries : Bytes → List Artifact → List (Entry R)
  named_entries name [] = []
  named_entries name (a ∷ arts) = and_rest name (entry_of json date a) (named_entries name arts)

  entries_of-append_to :
      (n name : Bytes) (e : Entry R) (es : List (Bytes × List (Entry R)))
      → entries_of name (append_to n e es)
        ≡ (if n == name then entries_of name es ++ e ∷ [] else entries_of name es)
  unfolding entries_of append_to
  entries_of-append_to n name e [] = ground arith
  entries_of-append_to n name e ((m, fs) ∷ es) =
      ground (arith, entries_of-append_to n name e es, eq_iff m n, eq_iff m name, eq_iff n name)

  entries_of-add_entries :
      (name : Bytes) (arts : List Artifact) (es : List (Bytes × List (Entry R)))
      → entries_of name (add_entries json date arts es)
        ≡ entries_of name es ++ named_entries name arts
  unfolding add_entries named_entries
  entries_of-add_entries name [] es = sym (append-nil (entries_of name es))
  entries_of-add_entries name (a ∷ arts) es = elim (Option-cases (entry_of json date a)) [
    | inl x ↦ rw x (entries_of-add_entries name arts es)
    | inr (e, x) ↦
        let rest = entries_of-add_entries name arts (append_to e.chart.name e es) in
        let more = entries_of-append_to e.chart.name name e es in
        elim (Bool-cases (e.chart.name == name)) [
          | inr k ↦ rw (x, k) (rest ∙ rw (more, k) refl)
          | inl k ↦
              rw (x, k)
                (rest
                  ∙ rw (more, k)
                      (append_assoc (entries_of name es) (e ∷ []) (named_entries name arts)))
        ]
  ]

  -- Under each name the index lists the rows whose metadata can be read and name that chart and a version,
  -- in the order of the rows, and no others.
  pub build_index-entries_of :
      (name context_path : Bytes) (now : ℕ) (arts : List Artifact)
      → entries_of name (build_index json date arts context_path now).entries
        ≡ named_entries name arts
  unfolding build_index entries_of
  build_index-entries_of name context_path now arts = entries_of-add_entries name arts []
