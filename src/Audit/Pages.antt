-- ===== src/Audit/Pages.antt =====
-- internal/audit/store.go: what a page of the audit log holds.
use packrune.Prelude.{
  ℕ, zero, suc, ◌≤◌, ◌+◌, ◌≡◌, ◌∙◌, ◌⊎◌, refl, Bool, ◌&&◌, inl, inr, some, List, [], ◌∷◌, arith,
  ltb, leb, length, if◌then◌else◌, sort_by, insert_by, count_by, count-sort_by, All, Bool-cases,
}
use packrune.Audit.{Row, Log, older, take_rows, newer, page, page_limit}

-- Each row is at least as new as those behind it.
abbrev pub IsNewestFirst : List Row → Type 0
IsNewestFirst [] = Unit
IsNewestFirst (r ∷ rs) = All (λ (x : Row). x.created_at ≤ r.created_at) rs × IsNewestFirst rs

All-weaken {ℓ κ μ} :
    {A : Type ℓ} (P : A → Type κ) (Q : A → Type μ) (xs : List A)
    → ((x : A) → P x → Q x)
    → All P xs
    → All Q xs
All-weaken P Q [] f h = tt
All-weaken P Q (x ∷ xs) f (h, hs) = (f x h, All-weaken P Q xs f hs)

insert_by-AtMost :
    (n : ℕ) (r : Row) (rs : List Row)
    → r.created_at ≤ n
    → All (λ (x : Row). x.created_at ≤ n) rs
    → All (λ (x : Row). x.created_at ≤ n) (insert_by newer r rs)
insert_by-AtMost n r [] h hs = (h, tt)
insert_by-AtMost n r (y ∷ ys) h (hy, hs) = elim (Bool-cases (newer y r)) [
  | inl e ↦ rw e (hy, insert_by-AtMost n r ys h hs)
  | inr e ↦ rw e (h, (hy, hs))
]

insert_by-IsNewestFirst :
    (r : Row) (rs : List Row) → IsNewestFirst rs → IsNewestFirst (insert_by newer r rs)
insert_by-IsNewestFirst r [] h = (tt, tt)
insert_by-IsNewestFirst r (y ∷ ys) (hy, hs) = elim (Bool-cases (newer y r)) [
  | inl e ↦
      rw e
        (insert_by-AtMost y.created_at r ys (ground (arith, e)) hy, insert_by-IsNewestFirst r ys hs)
  | inr e ↦ rw e (
    (
      ground (arith, e),
      All-weaken (λ (x : Row). x.created_at ≤ y.created_at)
          (λ (x : Row). x.created_at ≤ r.created_at) ys (λ x k. ground (arith, e, k)) hy,
    ),
    (hy, hs),
  )
]

sort_by-IsNewestFirst : (rs : List Row) → IsNewestFirst (sort_by newer rs)
unfolding sort_by
sort_by-IsNewestFirst [] = tt
sort_by-IsNewestFirst (r ∷ rs) =
    insert_by-IsNewestFirst r (sort_by newer rs) (sort_by-IsNewestFirst rs)

take_rows-All {κ} : (P : Row → Type κ) (n : ℕ) (rs : List Row) → All P rs → All P (take_rows n rs)
unfolding take_rows
take_rows-All P zero rs h = tt
take_rows-All P (suc n) [] h = tt
take_rows-All P (suc n) (r ∷ rs) (h, hs) = (h, take_rows-All P n rs hs)

take_rows-IsNewestFirst :
    (n : ℕ) (rs : List Row) → IsNewestFirst rs → IsNewestFirst (take_rows n rs)
unfolding take_rows
take_rows-IsNewestFirst zero rs h = tt
take_rows-IsNewestFirst (suc n) [] h = tt
take_rows-IsNewestFirst (suc n) (r ∷ rs) (h, hs) = (
  take_rows-All (λ (x : Row). x.created_at ≤ r.created_at) n rs h,
  take_rows-IsNewestFirst n rs hs,
)

length-take_rows : (n : ℕ) (rs : List Row) → length (take_rows n rs) ≤ n
unfolding take_rows
length-take_rows zero rs = omega arith
length-take_rows (suc n) [] = omega arith
length-take_rows (suc n) (r ∷ rs) = omega (arith, length-take_rows n rs)

unfoldable drop_rows : ℕ → List Row → List Row
drop_rows zero rs = rs
drop_rows (suc n) [] = []
drop_rows (suc n) (r ∷ rs) = drop_rows n rs

drop_rows-All {κ} : (P : Row → Type κ) (n : ℕ) (rs : List Row) → All P rs → All P (drop_rows n rs)
unfolding drop_rows
drop_rows-All P zero rs h = h
drop_rows-All P (suc n) [] h = tt
drop_rows-All P (suc n) (r ∷ rs) (h, hs) = drop_rows-All P n rs hs

-- Each row of the first list is at least as new as each of the second.
abbrev pub AreNewer : List Row → List Row → Type 0
AreNewer rs left = All (λ (r : Row). All (λ (x : Row). x.created_at ≤ r.created_at) left) rs

take_rows-AreNewer :
    (n : ℕ) (rs : List Row) → IsNewestFirst rs → AreNewer (take_rows n rs) (drop_rows n rs)
unfolding take_rows drop_rows
take_rows-AreNewer zero rs h = tt
take_rows-AreNewer (suc n) [] h = tt
take_rows-AreNewer (suc n) (r ∷ rs) (h, hs) =
    (drop_rows-All (λ (x : Row). x.created_at ≤ r.created_at) n rs h, take_rows-AreNewer n rs hs)

count-take_rows :
    (p : Row → Bool) (n : ℕ) (rs : List Row)
    → count_by p (take_rows n rs) + count_by p (drop_rows n rs) ≡ count_by p rs
unfolding take_rows drop_rows
count-take_rows p zero rs = omega arith
count-take_rows p (suc n) [] = refl
count-take_rows p (suc n) (r ∷ rs) = ground (arith, count-take_rows p n rs)

take_rows_full : (n : ℕ) (rs : List Row) → (length (take_rows n rs) ≡ n) ⊎ (drop_rows n rs ≡ [])
unfolding take_rows drop_rows
take_rows_full zero rs = inl refl
take_rows_full (suc n) [] = inr refl
take_rows_full (suc n) (r ∷ rs) = elim (take_rows_full n rs) [
  | inl e ↦ inl (omega (arith, e))
  | inr e ↦ inr e
]

count-older :
    (p : Row → Bool) (before : ℕ) (rs : List Row)
    → count_by p (older before rs) ≡ count_by (λ (r : Row). ltb r.created_at before && p r) rs
unfolding older
count-older p before [] = refl
count-older p before (r ∷ rs) = ground (arith, count-older p before rs)

-- A page that is asked for before a time holds the newest records older than that time, the newest first:
-- what it leaves of them is no newer, and there is no such rest unless the page has as many records as were
-- asked for, which is 100 if the limit is not from 1 to 500.
pub page-IsNewestFirst :
    (before limit : ℕ) (log : Log)
    → let got = page (some before) limit log in
      let asked = if leb 1 limit && leb limit 500 then limit else 100 in
      IsNewestFirst got
      × (left : List Row) × AreNewer got left
      × ((p : Row → Bool)
          → count_by p got + count_by p left
            ≡ count_by (λ (r : Row). ltb r.created_at before && p r) log)
      × (length got ≤ asked)
      × ((length got ≡ asked) ⊎ (left ≡ []))
unfolding page
page-IsNewestFirst before limit log =
    let sorted = sort_by newer (older before log) in
    let order = sort_by-IsNewestFirst (older before log) in
    let n = page_limit limit in
    let asked : n ≡ (if leb 1 limit && leb limit 500 then limit else 100) = ground arith in
    rw (← asked) (
      take_rows-IsNewestFirst n sorted order,
      drop_rows n sorted,
      take_rows-AreNewer n sorted order,
      (λ p.
          count-take_rows p n sorted
          ∙ count-sort_by p newer (older before log)
          ∙ count-older p before log),
      length-take_rows n sorted,
      take_rows_full n sorted,
    )
