-- ===== src/Webhook/Service/Events.antt =====
-- The test of a subscription's events, against the list that the events are written as.
use packrune.Prelude.{
  ℕ, ◌≡◌, ◌≢◌, inl, inr, refl, ap, sym, ◌∙◌, Bool, true, false, ◌||◌, none, List, [], ◌∷◌, ◌++◌,
  arith, Bytes, codes, ◌==◌, nat_eq, nat_eq_iff, is_some, strip_prefix?, cut, contains, split, All,
  onto_first, Bool-cases,
}
use packrune.Webhook.Service.{subscribes}

-- Whether a list has a text.
unfoldable pub lists : Bytes → List Bytes → Bool
lists e [] = false
lists e (f ∷ fs) = f == e || lists e fs

abbrev first_field : List Bytes → Bytes
first_field [] = []
first_field (f ∷ fs) = f

abbrev later_fields : List Bytes → List Bytes
later_fields [] = []
later_fields (f ∷ fs) = fs

split-plain :
    (c : ℕ) (s : Bytes)
    → nat_eq c b',' ≡ false
    → split (c ∷ s) b',' ≡ (c ∷ first_field (split s b',')) ∷ later_fields (split s b',')
unfolding split
split-plain c s h = rw h (go (split s b','))
  where
    go : (fs : List Bytes) → onto_first c fs ≡ (c ∷ first_field fs) ∷ later_fields fs
    go [] = refl
    go (f ∷ fs) = refl

split-fields : (s : Bytes) → split s b',' ≡ first_field (split s b',') ∷ later_fields (split s b',')
unfolding split
split-fields [] = refl
split-fields (c ∷ s) = elim (Bool-cases (nat_eq c b',')) [
  | inl h ↦ rw h
  | inr h ↦ ground (arith, h, split-plain c s h)
]

abbrev comma : Bytes
comma = codes ","

contains-cons :
    (c : ℕ) (s t : Bytes) → contains (c ∷ s) t ≡ (is_some (strip_prefix? (c ∷ s) t) || contains s t)
unfolding contains cut
contains-cons c s t = ground arith

-- A text and a comma begin with another text and a comma if their first fields are the same.
starts_field :
    (s e : Bytes)
    → All (λ c. c ≢ b',') e
    → is_some (strip_prefix? (s ++ comma) (e ++ comma)) ≡ (first_field (split s b',') == e)
unfolding strip_prefix? ◌==◌ split
starts_field [] [] h = refl
starts_field [] (c ∷ e) (hc, h) = ground (arith, nat_eq_iff c b',')
starts_field (c ∷ s) [] h = ground (arith, nat_eq_iff c b',', split-plain c s)
starts_field (c ∷ s) (d ∷ e) (hd, h) =
    ground (arith, nat_eq_iff c b',', nat_eq_iff c d, split-plain c s, starts_field s e h)

lists-split :
    (e s : Bytes)
    → lists e (split s b',')
      ≡ (first_field (split s b',') == e || lists e (later_fields (split s b',')))
lists-split e s = ap (λ fs. lists e fs) (split-fields s) ∙ (unfold lists in refl)

split-comma : (c : ℕ) (s : Bytes) → nat_eq c b',' ≡ true → split (c ∷ s) b',' ≡ [] ∷ split s b','
unfolding split
split-comma c s h = rw h refl

strip_comma :
    (c : ℕ) (s t : Bytes)
    → nat_eq c b',' ≡ true
    → strip_prefix? (c ∷ s) (b',' ∷ t) ≡ strip_prefix? s t
unfolding strip_prefix?
strip_comma c s t h = rw h refl

no_strip : (c : ℕ) (s t : Bytes) → nat_eq c b',' ≡ false → strip_prefix? (c ∷ s) (b',' ∷ t) ≡ none
unfolding strip_prefix?
no_strip c s t h = rw h refl

no_room :
    (e : Bytes)
    → (is_some (strip_prefix? comma (comma ++ (e ++ comma))) || contains [] (comma ++ (e ++ comma)))
      ≡ false
unfolding strip_prefix? contains cut
no_room [] = refl
no_room (c ∷ e) = refl

contains-fields :
    (e s : Bytes)
    → All (λ c. c ≢ b',') e
    → contains (s ++ comma) (comma ++ (e ++ comma)) ≡ lists e (later_fields (split s b','))
contains-fields e [] h =
    contains-cons b',' [] (comma ++ (e ++ comma)) ∙ (no_room e ∙ (unfold split lists in refl))
contains-fields e (c ∷ s) h = elim (Bool-cases (nat_eq c b',')) [
  | inl sep ↦
      contains-cons c (s ++ comma) (comma ++ (e ++ comma))
      ∙ rw
          (
            strip_comma c (s ++ comma) (e ++ comma) sep,
            starts_field s e h,
            contains-fields e s h,
            split-comma c s sep,
          )
          (sym (lists-split e s))
  | inr plain ↦
      contains-cons c (s ++ comma) (comma ++ (e ++ comma))
      ∙ rw (no_strip c (s ++ comma) (e ++ comma) plain, split-plain c s plain)
          (contains-fields e s h)
]

contains-comma :
    (s e : Bytes)
    → All (λ c. c ≢ b',') e
    → contains (b',' ∷ (s ++ comma)) (b',' ∷ (e ++ comma)) ≡ lists e (split s b',')
contains-comma s e h =
    contains-cons b',' (s ++ comma) (b',' ∷ (e ++ comma))
    ∙ rw
        (strip_comma b',' (s ++ comma) (e ++ comma) refl, starts_field s e h, contains-fields e s h)
        (sym (lists-split e s))

-- An event without commas is met by the column exactly if it is "*" or the comma-separated list in
-- it names the event.
pub subscribes-lists :
    (events event : Bytes)
    → All (λ c. c ≢ b',') event
    → subscribes events event ≡ (events == codes "*" || lists event (split events b','))
unfolding subscribes
subscribes-lists events event h = rw (contains-comma events event h) refl
