-- ===== src/Maven/Path/Ends.antt =====
-- internal/format/maven/handler.go: the paths that an upload writes are told apart by their last byte.
use packrune.Prelude.{
  ℕ, ◌≡◌, ◌≢◌, ◌⊎◌, inl, inr, refl, ap, sym, ◌∙◌, true, false, [], ◌∷◌, ◌++◌, append_assoc, arith,
  Bytes, codes, ◌==◌, eq_of_==, nat_eq, nat_eq_iff, has_suffix, strip_suffix?, eq_of_strip_suffix?,
  cut_last, eq_of_cut_last, Option-cases, Bool-cases,
}
use packrune.Maven.Path.{trim_slashes, base, is_primary_artifact}

abbrev pub last : Bytes → ℕ
last [] = 0
last (c ∷ []) = c
last (c ∷ d ∷ s) = last (d ∷ s)

pub last-append : (s : Bytes) (c : ℕ) (t : Bytes) → last (s ++ c ∷ t) ≡ last (c ∷ t)
last-append [] c t = refl
last-append (a ∷ []) c t = refl
last-append (a ∷ d ∷ s) c t = last-append (d ∷ s) c t

trim_slashes-last : (c : ℕ) (s : Bytes) → (trim_slashes (c ∷ s) ≡ c ∷ s) ⊎ (last (c ∷ s) ≡ b'/')
unfolding trim_slashes
trim_slashes-last c [] = elim (Bool-cases (nat_eq c b'/')) [
  | inl e ↦ inr (ground (arith, nat_eq_iff c b'/'))
  | inr e ↦ inl (rw e refl)
]
trim_slashes-last c (d ∷ s) = elim (trim_slashes-last d s) [
  | inl e ↦ inl (rw (trim_slashes, e) refl)
  | inr e ↦ inr e
]

-- The last byte of a path whose base has a suffix is that of the suffix, or a slash.
last-base :
    (p : Bytes) (c : ℕ) (t : Bytes)
    → has_suffix (codes ".") (c ∷ t) ≡ false
    → has_suffix (codes "/") (c ∷ t) ≡ false
    → has_suffix (base p) (c ∷ t) ≡ true
    → (p ≢ []) × ((last p ≡ b'/') ⊎ (last p ≡ last (c ∷ t)))
unfolding base has_suffix
last-base [] c t d e h = absurd (ground (arith, d, h))
last-base (x ∷ s) c t d e h = (
  λ k. cc,
  elim (trim_slashes-last x s) [
    | inr slash ↦ inl slash
    | inl whole ↦ elim (Option-cases (cut_last (x ∷ s) (codes "/"))) [
      | inl uncut ↦ elim (Option-cases (strip_suffix? (x ∷ s) (c ∷ t))) [
        | inl k ↦ absurd (ground (arith, whole, uncut, k, h))
        | inr (r, k) ↦ inr (ap last (eq_of_strip_suffix? (x ∷ s) (c ∷ t) r k) ∙ last-append r c t)
      ]
      | inr ((dir, file), k) ↦ elim (Option-cases (strip_suffix? file (c ∷ t))) [
        | inl m ↦ absurd (ground (arith, whole, k, m, h))
        | inr (r, m) ↦ inr (
            ap last (
              eq_of_cut_last (x ∷ s) (codes "/") dir file k
              ∙ ap (λ (z : Bytes). dir ++ (b'/' ∷ z)) (eq_of_strip_suffix? file (c ∷ t) r m)
              ∙ sym (append_assoc dir (b'/' ∷ r) (c ∷ t)))
            ∙ last-append (dir ++ (b'/' ∷ r)) c t)
      ]
    ]
  ],
)

-- A primary artifact does not end as maven-metadata.xml does.
pub is_primary_artifact-last :
    (p : Bytes) → is_primary_artifact p ≡ true → (p ≢ []) × (last p ≢ b'l')
unfolding is_primary_artifact has_suffix strip_suffix? ◌==◌
is_primary_artifact-last p h = elim (Bool-cases (has_suffix (base p) (codes ".jar"))) [
  | inl e ↦ ended refl (last-base p b'.' (codes "jar") refl refl e)
  | inr n1 ↦ elim (Bool-cases (has_suffix (base p) (codes ".pom"))) [
    | inl e ↦ ended refl (last-base p b'.' (codes "pom") refl refl e)
    | inr n2 ↦ elim (Bool-cases (has_suffix (base p) (codes ".war"))) [
      | inl e ↦ ended refl (last-base p b'.' (codes "war") refl refl e)
      | inr n3 ↦ elim (Bool-cases (has_suffix (base p) (codes ".aar"))) [
        | inl e ↦ ended refl (last-base p b'.' (codes "aar") refl refl e)
        | inr n4 ↦
            ended refl
              (last-base p b'.' (codes "module") refl refl (ground (arith, n1, n2, n3, n4)))
      ]
    ]
  ]
]
  where
    ended :
        {c : ℕ}
        → nat_eq c b'l' ≡ false
        → (p ≢ []) × ((last p ≡ b'/') ⊎ (last p ≡ c))
        → (p ≢ []) × (last p ≢ b'l')
    ended {c} n r = (r.0, λ k. elim r.1 [ inl a ↦ omega arith | inr a ↦ ground (arith, n, a, k) ])

-- Texts of different last bytes differ.
pub last-ne : (s t : Bytes) → last s ≢ last t → (s == t) ≡ false
last-ne s t h = elim (Bool-cases (s == t)) [
  | inl e ↦ absurd (h (ap last (eq_of_== s t e)))
  | inr e ↦ e
]

pub last-append_l : (s t : Bytes) → last t ≡ b'l' → last (s ++ t) ≡ b'l'
last-append_l s [] h = absurd (omega arith)
last-append_l s (c ∷ t) h = last-append s c t ∙ h
