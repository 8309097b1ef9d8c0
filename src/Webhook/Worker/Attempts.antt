-- ===== src/Webhook/Worker/Attempts.antt =====
-- How often the worker posts a delivery, and which rows it leaves alone.
use packrune.Prelude.{
  ℕ, zero, suc, ◌+◌, ◌≤◌, ◌≡◌, inl, inr, refl, ap, ◌∙◌, true, Option, none, some, List, [], ◌∷◌,
  arith, Bytes, ◌==◌, eq_iff, leb, if◌then◌else◌, sort_by, count_by, count-sort_by, All, Bool-cases,
}
use packrune.Database.{Database}
use packrune.Webhook.Tables.{Hook, Delivery, Tables, find_delivery, update_delivery}
use packrune.Webhook.Service.{Outgoing, Outcome, unsent, unanswered, answered, is_success}
use packrune.Webhook.Worker.{
  max_attempts, backoff, PendingRow, due_rows, take_rows, select_pending, retried, succeeded,
  write_row, outgoing, settle, mark_retry, retry_one, retry_all,
}

abbrev pub rows_of : Bytes → List Delivery → ℕ
rows_of id ds = count_by (λ (d : Delivery). d.id == id) ds

abbrev pub times_of : Bytes → List PendingRow → ℕ
times_of id ps = count_by (λ (p : PendingRow). p.delivery_id == id) ps

-- The primary key of the deliveries.
abbrev pub IsKeyed : Tables → Type 0
IsKeyed t = (id : Bytes) → rows_of id t.deliveries ≤ 1

abbrev pub map_row : (Delivery → Delivery) → Option Delivery → Option Delivery
map_row f none = none
map_row f (some d) = some (f d)

module _ (id : Bytes) where
  pub find_delivery-update :
      (q : Bytes) (f : Delivery → Delivery) (ds : List Delivery)
      → ((d : Delivery) → (f d).id ≡ d.id)
      → find_delivery id (update_delivery q f ds)
        ≡ (if q == id then map_row f (find_delivery id ds) else find_delivery id ds)
  unfolding find_delivery update_delivery
  find_delivery-update q f [] keep = ground arith
  find_delivery-update q f (d ∷ ds) keep =
      ground (
        arith,
        find_delivery-update q f ds keep,
        keep d,
        eq_iff d.id q,
        eq_iff d.id id,
        eq_iff q id,
      )

  pub rows_of-update :
      (q : Bytes) (f : Delivery → Delivery) (ds : List Delivery)
      → ((d : Delivery) → (f d).id ≡ d.id)
      → rows_of id (update_delivery q f ds) ≡ rows_of id ds
  unfolding update_delivery
  rows_of-update q f [] keep = refl
  rows_of-update q f (d ∷ ds) keep = ground (arith, rows_of-update q f ds keep, keep d)

  pub times_of-take : (n : ℕ) (ps : List PendingRow) → times_of id (take_rows n ps) ≤ times_of id ps
  times_of-take zero ps = omega arith
  times_of-take (suc n) [] = omega arith
  times_of-take (suc n) (p ∷ ps) = ground (arith, times_of-take n ps)

  pub times_of-due :
      (now : ℕ) (hooks : List Hook) (ds : List Delivery)
      → times_of id (due_rows now hooks ds) ≤ rows_of id ds
  unfolding due_rows
  times_of-due now hooks [] = omega arith
  times_of-due now hooks (d ∷ ds) = ground (arith, times_of-due now hooks ds)

  -- A row is posted at most once at a tick.
  pub select_pending-le :
      (now : ℕ) (t : Tables) → times_of id (select_pending now t) ≤ rows_of id t.deliveries
  unfolding select_pending
  select_pending-le now t =
      let sorted = sort_by (λ (a b : Delivery). leb a.created_at b.created_at) t.deliveries in
      omega (
        arith,
        times_of-take 50 (due_rows now t.hooks sorted),
        times_of-due now t.hooks sorted,
        count-sort_by (λ (d : Delivery). d.id == id) (λ a b. leb a.created_at b.created_at)
            t.deliveries,
      )

  abbrev pub row_in : Database Tables → Option Delivery
  row_in db = find_delivery id db.tables.deliveries

  pub write_row_calm :
      (q : Bytes) (f : Delivery → Delivery) (db : Database Tables)
      → ((d : Delivery) → (f d).id ≡ d.id)
      → db.faults ≡ []
      → (row_in (write_row q f db) ≡ (if q == id then map_row f (row_in db) else row_in db))
        × ((write_row q f db).faults ≡ [])
        × ((write_row q f db).tables.hooks ≡ db.tables.hooks)
  write_row_calm q f db keep calm =
      ground (arith, find_delivery-update q f db.tables.deliveries keep)

  -- What one retry does to the row `id`, in a database where no statement fails.
  record Retried (p : PendingRow) (after : Database Tables) (d : Delivery) : Type 0 where
    row : Delivery
    there : row_in after ≡ some row
    counted : row.attempts ≡ (if p.delivery_id == id then d.attempts + 1 else d.attempts)
    calm : after.faults ≡ []

  write_row-Retried :
      (p : PendingRow) (f : Delivery → Delivery) (db : Database Tables) (d : Delivery)
      → ((e : Delivery) → (f e).id ≡ e.id)
      → db.faults ≡ []
      → row_in db ≡ some d
      → ((p.delivery_id == id) ≡ true → (f d).attempts ≡ d.attempts + 1)
      → Retried p (write_row p.delivery_id f db) d
  write_row-Retried p f db d keep calm there more =
      let done = write_row_calm p.delivery_id f db keep calm in
      record {
        row = if p.delivery_id == id then f d else d;
        there = done.0 ∙ ground (arith, there);
        counted = ground (arith, more);
        calm = done.1;
      }

  module _ (hmac : Bytes → Bytes → Bytes) (show_status : ℕ → Bytes) where
    mark_retry-Retried :
        (now : ℕ) (p : PendingRow) (msg : Bytes) (db : Database Tables) (d : Delivery)
        → db.faults ≡ []
        → row_in db ≡ some d
        → ((p.delivery_id == id) ≡ true → p.attempts ≡ d.attempts)
        → Retried p (mark_retry now p msg db) d
    unfolding mark_retry
    mark_retry-Retried now p msg db d calm there same =
        let more = λ (e : (p.delivery_id == id) ≡ true). ap (λ (n : ℕ). n + 1) (same e) in
        elim (Bool-cases (leb max_attempts (p.attempts + 1))) [
          | inl last ↦ rw last (
              write_row-Retried p (retried (p.attempts + 1) msg none) db d (λ e. refl) calm there
                more)
          | inr next ↦ rw next (
              write_row-Retried p
                (retried (p.attempts + 1) msg (some (now + backoff (p.attempts + 1)))) db d
                (λ e. refl) calm there more)
        ]

    module _ (client : Bytes → Outgoing → Outcome) (now : ℕ) where
      abbrev retry : PendingRow → Database Tables → Database Tables
      retry p db = retry_one hmac show_status client now p db

      settle-Retried :
          (p : PendingRow) (o : Outcome) (db : Database Tables) (d : Delivery)
          → db.faults ≡ []
          → row_in db ≡ some d
          → ((p.delivery_id == id) ≡ true → p.attempts ≡ d.attempts)
          → Retried p (settle hmac show_status now p o db) d
      settle-Retried p (unsent msg) db d calm there same =
          mark_retry-Retried now p msg db d calm there same
      settle-Retried p (unanswered msg) db d calm there same =
          mark_retry-Retried now p msg db d calm there same
      settle-Retried p (answered status) db d calm there same =
          elim (Bool-cases (is_success status)) [
            | inl good ↦
                rw good
                  (write_row-Retried p (succeeded now) db d (λ e. refl) calm there (λ e. refl))
            | inr bad ↦ rw bad (mark_retry-Retried now p (show_status status) db d calm there same)
          ]

      -- The pending rows of a delivery say how often it was attempted.
      abbrev pub Counted : ℕ → List PendingRow → Type 0
      Counted n ps = All (λ (p : PendingRow). (p.delivery_id == id) ≡ true → p.attempts ≡ n) ps

      no_times : (ps : List PendingRow) (n : ℕ) → times_of id ps ≡ 0 → Counted n ps
      no_times [] n h = tt
      no_times (p ∷ ps) n h = (λ e. absurd (ground (arith, e)), no_times ps n (ground arith))

      -- The rows that are retried are posted, and counted.
      pub retry_all-attempts :
          (ps : List PendingRow) (db : Database Tables) (d : Delivery)
          → db.faults ≡ []
          → row_in db ≡ some d
          → times_of id ps ≤ 1
          → Counted d.attempts ps
          → (d' : Delivery) × (row_in (retry_all hmac show_status client now ps db) ≡ some d')
            × (d'.attempts ≡ d.attempts + times_of id ps)
            × ((retry_all hmac show_status client now ps db).faults ≡ [])
      unfolding retry_all retry_one
      retry_all-attempts [] db d calm there once same = (d, there, omega arith, calm)
      retry_all-attempts (p ∷ ps) db d calm there once (here, rest) =
          let o = client p.delivery_id (outgoing hmac show_status p) in
          let one = settle-Retried p o db d calm there here in
          elim (Bool-cases (p.delivery_id == id)) [
            | inl e ↦
                let later =
                  retry_all-attempts ps (settle hmac show_status now p o db) one.row one.calm
                    one.there (ground (arith, e))
                    (no_times ps one.row.attempts (ground (arith, e))) in
                (later.0, later.1, ground (arith, e, later.2, one.counted), later.3)
            | inr e ↦
                let same_count : one.row.attempts ≡ d.attempts = ground (arith, e, one.counted) in
                let later =
                  retry_all-attempts ps (settle hmac show_status now p o db) one.row one.calm
                    one.there (ground (arith, e)) (rw same_count rest) in
                (later.0, later.1, ground (arith, e, later.2, same_count), later.3)
          ]
