-- ===== src/Docker/Route/Urls.antt =====
-- What parse_path answers, against the URL shapes of the registry API.
use packrune.Prelude.{
  ◌≡◌, ◌≢◌, ◌⊎◌, inl, inr, refl, ap, true, false, none, some, [], ◌∷◌, ◌++◌, append_assoc, arith,
  Bytes, codes, ◌==◌, eq_iff, Option-cases, Bool-cases, strip_prefix?, trim_prefix, strip_suffix?,
  has_suffix, trim_suffix, eq_of_strip_suffix?, Split, cut, eq_of_cut, cut-append,
}
use packrune.Docker.Route.{
  unknown, version, catalog, tags_list, manifest, blob, upload_start, upload_session, ParsedRoute,
  route, cut_inside, parse_trimmed, trim_mount, parse_path,
}

-- The path of a route behind "/v2/", as the registry API documents it.
unfoldable pub url : ParsedRoute → Bytes
url r = elim r.kind [
  | unknown ↦ []
  | version ↦ []
  | catalog ↦ codes "_catalog"
  | tags_list ↦ r.name ++ codes "/tags/list"
  | manifest ↦ r.name ++ (codes "/manifests/" ++ r.reference)
  | blob ↦ r.name ++ (codes "/blobs/" ++ r.reference)
  | upload_start ↦ r.name ++ codes "/blobs/uploads/"
  | upload_session ↦ r.name ++ (codes "/blobs/uploads/" ++ r.reference)
]

-- A known route spells the path it was parsed from; the start of an upload may lack the last slash.
abbrev pub Spells : Bytes → ParsedRoute → Type 0
Spells p r = (p ≡ url r) ⊎ ((r.kind ≡ upload_start) × (p ≡ r.name ++ codes "/blobs/uploads"))

cut_inside-spells :
    (p sep b a : Bytes) → cut_inside p sep ≡ some (b, a) → (p ≡ b ++ (sep ++ a)) × (b ≢ [])
unfolding cut_inside
cut_inside-spells p sep b a h = elim (Option-cases (cut p sep)) [
  | inl e ↦ ground arith
  | inr ((x, y), e) ↦ ground (arith, eq_of_cut p sep x y e)
]

trim_suffix-append : (p t : Bytes) → has_suffix p t ≡ true → p ≡ trim_suffix p t ++ t
unfolding has_suffix trim_suffix
trim_suffix-append p t h = elim (Option-cases (strip_suffix? p t)) [
  | inl e ↦ ground arith
  | inr (r, e) ↦ ground (arith, eq_of_strip_suffix? p t r e)
]

parse_trimmed-Spells : (p : Bytes) → (parse_trimmed p).kind ≢ unknown → Spells p (parse_trimmed p)
unfolding parse_trimmed url
parse_trimmed-Spells p k =
    let tags = trim_suffix-append p (codes "/tags/list") in
    let slash = trim_suffix-append p (codes "/blobs/uploads/") in
    let bare = trim_suffix-append p (codes "/blobs/uploads") in
    elim (Option-cases (cut_inside p (codes "/manifests/"))) [
      | inr ((b, a), e) ↦ ground (
        arith,
        eq_iff p [],
        eq_iff p (codes "_catalog"),
        tags,
        cut_inside-spells p (codes "/manifests/") b a e,
      )
      | inl e ↦ elim (Option-cases (cut_inside p (codes "/blobs/uploads/"))) [
        | inr ((b, a), f) ↦ ground (
          arith,
          eq_iff p [],
          eq_iff p (codes "_catalog"),
          tags,
          slash,
          bare,
          cut_inside-spells p (codes "/blobs/uploads/") b a f,
        )
        | inl f ↦ elim (Option-cases (cut_inside p (codes "/blobs/"))) [
          | inr ((b, a), g) ↦ ground (
            arith,
            eq_iff p [],
            eq_iff p (codes "_catalog"),
            tags,
            slash,
            bare,
            cut_inside-spells p (codes "/blobs/") b a g,
          )
          | inl g ↦ ground (arith, eq_iff p [], eq_iff p (codes "_catalog"), tags, slash, bare)
        ]
      ]
    ]

-- Whatever the request path, a recognised route spells it: behind the mount, the path is the
-- documented URL of the parsed kind, name and reference (an upload may be started without the last
-- slash).
pub parse_path-Spells :
    (p : Bytes) → (parse_path p).kind ≢ unknown → Spells (trim_mount p) (parse_path p)
unfolding parse_path
parse_path-Spells p = parse_trimmed-Spells (trim_mount p)

trim_mount-append : (q : Bytes) → trim_mount (codes "/v2/" ++ q) ≡ q
unfolding trim_mount trim_prefix strip_prefix?
trim_mount-append q = refl

cut_inside-append :
    (n sep r : Bytes)
    → n ≢ []
    → cut (n ++ sep) sep ≡ some (n, [])
    → cut_inside (n ++ (sep ++ r)) sep ≡ some (n, r)
unfolding cut_inside
cut_inside-append [] sep r h first = absurd (h refl)
cut_inside-append (c ∷ n) sep r h first =
    rw (← append_assoc (c ∷ n) sep r)
      (ground (arith, cut-append ((c ∷ n) ++ sep) sep r (c ∷ n) [] first))

-- A text with a separator inside is none of the texts that lack it.
no_cut-ne :
    (p q sep : Bytes) (x : Split)
    → cut_inside q sep ≡ none
    → cut_inside p sep ≡ some x
    → (p == q) ≡ false
no_cut-ne p q sep x lacks has = elim (Bool-cases (p == q)) [
  | inr ne ↦ ne
  | inl e ↦ cc (ap (λ (t : Bytes). cut_inside t sep) ((eq_iff p q).0 e))
]

parse_trimmed-manifest :
    (p n r : Bytes)
    → cut_inside p (codes "/manifests/") ≡ some (n, r)
    → has_suffix p (codes "/tags/list") ≡ false
    → parse_trimmed p ≡ route manifest n r
unfolding parse_trimmed
parse_trimmed-manifest p n r e h = ground (
  arith,
  no_cut-ne p [] (codes "/manifests/") (n, r) (unfold cut_inside cut strip_prefix? in refl) e,
  no_cut-ne p (codes "_catalog") (codes "/manifests/") (n, r)
      (unfold cut_inside cut strip_prefix? in refl) e,
)

-- A manifest URL is parsed back to its name and reference when "/manifests/" first occurs behind the
-- name and the URL does not end in "/tags/list".
pub parse_path-manifest :
    (n r : Bytes)
    → n ≢ []
    → cut (n ++ codes "/manifests/") (codes "/manifests/") ≡ some (n, [])
    → has_suffix (n ++ (codes "/manifests/" ++ r)) (codes "/tags/list") ≡ false
    → parse_path (codes "/v2/" ++ url (route manifest n r)) ≡ route manifest n r
unfolding parse_path url
parse_path-manifest n r h first tags =
    rw trim_mount-append
      (parse_trimmed-manifest _ n r (cut_inside-append n (codes "/manifests/") r h first) tags)
