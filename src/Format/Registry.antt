-- ===== src/Format/Registry.antt =====
-- internal/format/registry.go: the formats that are registered, by name.
use packrune.Prelude.{
  ◌≡◌, refl, inl, inr, true, false, ◌&&◌, Option, none, some, List, [], ◌∷◌, arith, Bytes, ◌==◌,
  ==_refl, eq_iff, is_some, is_seen, distinct, ascending, ascending-sort, sort_strings,
  is_seen-sort, Bool-cases, Option-cases, if◌then◌else◌, All, sort_by-All, less, not, ◌||◌, sym,
  ◌∙◌,
}
use packrune.Action.{is_ok, ok, err, Action, io}

module _ {F : Type 0} (name_of : F → Bytes) where
  -- The map `registered`.
  abbrev pub Registered : Type 0
  Registered = List (Bytes × F)

  -- Lookup
  unfoldable pub lookup : Bytes → Registered → Option F
  lookup n [] = none
  lookup n ((m, f) ∷ fs) = if m == n then some f else lookup n fs

  -- Register; a panic is an error.
  unfoldable pub register : F → Action Registered (Unit {0})
  register f fs =
      if name_of f == []
      then (err io, fs)
      else if is_some (lookup (name_of f) fs)
      then (err io, fs)
      else (ok tt, (name_of f, f) ∷ fs)

  abbrev names : Registered → List Bytes
  names [] = []
  names ((n, f) ∷ fs) = n ∷ names fs

  abbrev values : Registered → List Bytes → List F
  values fs [] = []
  values fs (n ∷ ns) = elim (lookup n fs) [ none ↦ values fs ns | some f ↦ f ∷ values fs ns ]

  -- All, in the order of the names
  unfoldable pub all_formats : Registered → List F
  all_formats fs = values fs (sort_strings (names fs))

  -- Each format is registered under its own name, and no name twice.
  pub record IsRegistry (fs : Registered) : Type 0 where
    pub once : distinct (names fs) ≡ true
    pub named : All (λ (x : Bytes × F). name_of x.1 ≡ x.0) fs

  lookup-seen : (n : Bytes) (fs : Registered) → is_some (lookup n fs) ≡ is_seen n (names fs)
  unfolding lookup is_seen
  lookup-seen n [] = refl
  lookup-seen n ((m, f) ∷ fs) = ground (arith, lookup-seen n fs)

  lookup-name :
      (n : Bytes) (f : F) (fs : Registered)
      → All (λ (x : Bytes × F). name_of x.1 ≡ x.0) fs
      → lookup n fs ≡ some f
      → name_of f ≡ n
  unfolding lookup
  lookup-name n f [] h e = cc
  lookup-name n f ((m, g) ∷ fs) (h, hs) e = ground (arith, h, lookup-name n f fs hs, eq_iff m n)

  -- A format without a name or with one that is taken is refused and nothing changes; any other one is
  -- found under its name from then on, the other names find what they found, and the names stay distinct.
  pub register-lookup :
      (f : F) (n : Bytes) (fs : Registered)
      → IsRegistry fs
      → let refused = name_of f == [] || is_some (lookup (name_of f) fs) in
        let done = register f fs in
        IsRegistry done.1
        × (is_ok done.0 ≡ not refused)
        × (lookup n done.1 ≡ (if not refused && name_of f == n then some f else lookup n fs))
  unfolding register lookup distinct
  register-lookup f n fs r =
      elim (Bool-cases (name_of f == [] || is_some (lookup (name_of f) fs))) [
        | inl e ↦ elim (Bool-cases (name_of f == [])) [
          | inl k ↦ rw k (r, refl, refl)
          | inr k ↦
              let taken : is_some (lookup (name_of f) fs) ≡ true = ground (arith, e, k) in
              rw (k, taken) (r, refl, refl)
        ]
        | inr e ↦
            let free : is_some (lookup (name_of f) fs) ≡ false = ground (arith, e) in
            let some_ : (name_of f == []) ≡ false = ground (arith, e) in
            rw (some_, free)
              (
                record {
                  once = ground (arith, r.once, free, lookup-seen (name_of f) fs);
                  named = (refl, r.named);
                },
                refl,
                refl,
              )
      ]

  abbrev pub names_of : List F → List Bytes
  names_of [] = []
  names_of (f ∷ fs) = name_of f ∷ names_of fs

  values-names :
      (fs : Registered) (ns : List Bytes)
      → All (λ (x : Bytes × F). name_of x.1 ≡ x.0) fs
      → All (λ n. is_seen n (names fs) ≡ true) ns
      → names_of (values fs ns) ≡ ns
  values-names fs [] h s = refl
  values-names fs (n ∷ ns) h (s, ss) = elim (Option-cases (lookup n fs)) [
    | inl e ↦ absurd (ground (arith, e, s, lookup-seen n fs))
    | inr (f, e) ↦
        rw (names_of, e) (ground (arith, lookup-name n f fs h e, values-names fs ns h ss))
  ]

  seen-cons :
      (m : Bytes) (ns xs : List Bytes)
      → All (λ n. is_seen n ns ≡ true) xs
      → All (λ n. is_seen n (m ∷ ns) ≡ true) xs
  unfolding is_seen
  seen-cons m ns [] h = tt
  seen-cons m ns (x ∷ xs) (h, hs) = (ground (arith, h), seen-cons m ns xs hs)

  all_seen : (ns : List Bytes) → All (λ n. is_seen n ns ≡ true) ns
  unfolding is_seen
  all_seen [] = tt
  all_seen (n ∷ ns) = (ground (arith, ==_refl n), seen-cons n ns ns (all_seen ns))

  -- All answers the registered formats, each once, in the order of their names.
  pub all_formats-names :
      (fs : Registered) (n : Bytes)
      → IsRegistry fs
      → (ascending (names_of (all_formats fs)) ≡ true)
        × (is_seen n (names_of (all_formats fs)) ≡ is_some (lookup n fs))
  unfolding all_formats
  all_formats-names fs n r =
      let sorted = sort_strings (names fs) in
      let same =
        values-names fs sorted r.named
          (sort_by-All (λ n. is_seen n (names fs) ≡ true) less (names fs) (all_seen (names fs))) in
      (
        rw same (ascending-sort (names fs) r.once),
        rw same (is_seen-sort n (names fs) ∙ sym (lookup-seen n fs)),
      )
