-- ===== src/Webhook/Worker/Waits.antt =====
-- internal/webhook/worker.go: how long the worker leaves a delivery alone whose retry failed.
use packrune.Prelude.{
  ℕ, zero, suc, ◌+◌, ◌*◌, ◌^◌, ◌≤◌, ◌<◌, ◌≡◌, inl, inr, refl, ap, sym, ==_refl, Option, none, some,
  List, [], ◌∷◌, arith, Bytes, ◌==◌, leb, ltb, ◌&&◌, ◌⊎◌, false, if◌then◌else◌, sort_by, count_by,
  count-sort_by, Bool-cases,
}
use packrune.Database.{Database}
use packrune.Webhook.Tables.{Hook, Delivery, Tables, update_delivery}
use packrune.Webhook.Worker.{
  max_attempts, minute, backoff, PendingRow, due_rows, wants_retry, select_pending, retried,
  write_row, mark_retry,
}
use packrune.Webhook.Worker.Attempts.{map_row, times_of, times_of-take, row_in, write_row_calm}

backoff_power : (n : ℕ) → n + 1 < max_attempts → backoff (n + 1) ≡ 2 ^ n * minute
unfolding backoff
backoff_power zero h = omega arith
backoff_power (suc zero) h = omega arith
backoff_power (suc (suc zero)) h = omega arith
backoff_power (suc (suc (suc zero))) h = omega arith
backoff_power (suc (suc (suc (suc zero)))) h = omega arith
backoff_power (suc (suc (suc (suc (suc n))))) h = absurd (omega arith)

-- 2^n minutes from now behind n attempts, if there are attempts left.
abbrev next_attempt : ℕ → ℕ → Option ℕ
next_attempt n now = if ltb n 5 then some (now + 2 ^ n * minute) else none

-- What a failed attempt leaves of a row: one attempt more, and the time of the next one.
abbrev pub after_failure : ℕ → ℕ → Bytes → Delivery → Delivery
after_failure n now msg d = record d {
  attempts = n + 1;
  last_error = msg;
  next_attempt_at = next_attempt n now;
}

waits :
    (later n now : ℕ) (msg : Bytes)
    → (later < now + 2 ^ n * minute) ⊎ (5 ≤ n)
    → (d : Delivery) → wants_retry later (after_failure n now msg d) ≡ false
unfolding wants_retry
waits later n now msg (inl early) d = ground (arith, early)
waits later n now msg (inr spent) d = ground (arith, spent)

module _ (id : Bytes) where
  -- How many rows of the delivery a tick would select.
  abbrev wanted : ℕ → List Delivery → ℕ
  wanted now ds = count_by (λ (d : Delivery). d.id == id && wants_retry now d) ds

  times_of-wanted :
      (now : ℕ) (hooks : List Hook) (ds : List Delivery)
      → times_of id (due_rows now hooks ds) ≤ wanted now ds
  unfolding due_rows
  times_of-wanted now hooks [] = omega arith
  times_of-wanted now hooks (d ∷ ds) = ground (arith, times_of-wanted now hooks ds)

  select_pending-wanted :
      (now : ℕ) (t : Tables) → times_of id (select_pending now t) ≤ wanted now t.deliveries
  unfolding select_pending
  select_pending-wanted now t =
      let sorted = sort_by (λ (a b : Delivery). leb a.created_at b.created_at) t.deliveries in
      omega (
        arith,
        times_of-take id 50 (due_rows now t.hooks sorted),
        times_of-wanted now t.hooks sorted,
        count-sort_by (λ (d : Delivery). d.id == id && wants_retry now d)
            (λ a b. leb a.created_at b.created_at) t.deliveries,
      )

  wanted-update :
      (now : ℕ) (f : Delivery → Delivery) (ds : List Delivery)
      → ((d : Delivery) → (f d).id ≡ d.id)
      → ((d : Delivery) → wants_retry now (f d) ≡ false)
      → wanted now (update_delivery id f ds) ≡ 0
  unfolding update_delivery
  wanted-update now f [] keep never = refl
  wanted-update now f (d ∷ ds) keep never =
      ground (arith, wanted-update now f ds keep never, keep d, never d)

  module _ (now : ℕ) (p : PendingRow) (msg : Bytes) (db : Database Tables)
      (same_id : p.delivery_id ≡ id) where
    mark_retry-failure :
        mark_retry now p msg db ≡ write_row id (after_failure p.attempts now msg) db
    unfolding mark_retry
    mark_retry-failure =
        let n = p.attempts in
        let with_next = λ (o : Option ℕ). write_row id (retried (n + 1) msg o) db in
        elim (Bool-cases (leb max_attempts (n + 1))) [
          | inl last ↦
              let none_left : next_attempt n now ≡ none = ground (arith, last) in
              rw (same_id, last) (ap with_next (sym none_left))
          | inr next ↦
              let some_left : next_attempt n now ≡ some (now + 2 ^ n * minute) =
                ground (arith, next) in
              rw (same_id, next, backoff_power n (ground (arith, next)))
                (ap with_next (sym some_left))
        ]

    -- The row of a delivery whose retry failed has one attempt more and the time of the next, and for
    -- 2^n minutes, n being the attempts before it, no tick selects it again; none ever does once six
    -- attempts were made. No statement fails.
    pub mark_retry_waits :
        (later : ℕ)
        → db.faults ≡ []
        → (later < now + 2 ^ p.attempts * minute) ⊎ (5 ≤ p.attempts)
        → let done = mark_retry now p msg db in
          (row_in id done ≡ map_row (after_failure p.attempts now msg) (row_in id db))
          × (times_of id (select_pending later done.tables) ≡ 0)
    mark_retry_waits later calm early =
        let f = after_failure p.attempts now msg in
        let row = (write_row_calm id id f db (λ d. refl) calm).0 in
        let rows : (write_row id f db).tables.deliveries
            ≡ update_delivery id f db.tables.deliveries =
          ground (arith, calm) in
        let never =
          wanted-update later f db.tables.deliveries (λ d. refl)
            (waits later p.attempts now msg early) in
        let few = select_pending-wanted later (write_row id f db).tables in
        rw mark_retry-failure
          (rw (==_refl id) at row, omega (arith, few, ap (wanted later) rows, never))
