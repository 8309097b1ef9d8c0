-- ===== src/Webhook/Worker/Bounded.antt =====
-- The worker over all its ticks: it ends, and leaves alone what is settled.
use packrune.Prelude.{
  ℕ, zero, suc, ◌+◌, ◌≤◌, ◌<◌, ◌≡◌, ◌≢◌, inl, inr, refl, ap, ◌∙◌, Bool, true, false, ◌&&◌, none,
  some, List, [], ◌∷◌, arith, Bytes, ◌==◌, ltb, leb, sort_by, sort_by-All, All, Option-cases,
  Bool-cases,
}
use packrune.Action.{Result, ok, err}
use packrune.Database.{Database, query}
use packrune.Webhook.Tables.{is_failed, Hook, Delivery, Tables, find_hook, find_delivery}
use packrune.Webhook.Service.{Outgoing, Outcome, unsent, unanswered, answered, is_success}
use packrune.Webhook.Worker.{
  max_attempts, backoff, PendingRow, wants_retry, due_rows, take_rows, select_pending, retried,
  succeeded, write_row, outgoing, settle, mark_retry, retry_one, retry_all, run_once, Tick,
  worker_loop,
}
use packrune.Webhook.Worker.Attempts.{
  rows_of, times_of, row_in, times_of-take, select_pending-le, find_delivery-update, rows_of-update,
  retry_all-attempts,
}

module _ (id : Bytes) where
  -- Under a primary key every row of an id is the one that is found.
  abbrev Only : Delivery → List Delivery → Type 0
  Only d ds = All (λ (e : Delivery). (e.id == id) ≡ true → e ≡ d) ds

  none-Only : (d : Delivery) (ds : List Delivery) → rows_of id ds ≡ 0 → Only d ds
  none-Only d [] h = tt
  none-Only d (e ∷ ds) h = (λ k. absurd (ground (arith, k)), none-Only d ds (ground arith))

  find_delivery-Only :
      (d : Delivery) (ds : List Delivery)
      → find_delivery id ds ≡ some d
      → rows_of id ds ≤ 1
      → Only d ds
  unfolding find_delivery
  find_delivery-Only d [] h k = tt
  find_delivery-Only d (e ∷ ds) h k = elim (Bool-cases (e.id == id)) [
    | inl here ↦ (λ m. ground (arith, here), none-Only d ds (ground (arith, here)))
    | inr there ↦ (
      λ m. absurd (ground (arith, there, m)),
      find_delivery-Only d ds (ground (arith, there)) (ground (arith, there)),
    )
  ]

  module _ (now : ℕ) (d : Delivery) (hooks : List Hook) where
    due_rows-attempts :
        (ds : List Delivery)
        → Only d ds
        → All
            (λ (p : PendingRow). (p.delivery_id == id) ≡ true → p.attempts ≡ d.attempts)
            (due_rows now hooks ds)
    unfolding due_rows
    due_rows-attempts [] h = tt
    due_rows-attempts (e ∷ ds) (h, hs) = elim (Bool-cases (wants_retry now e)) [
      | inr skipped ↦ rw skipped (due_rows-attempts ds hs)
      | inl wanted ↦ elim (Option-cases (find_hook e.webhook_id hooks)) [
        | inl gone ↦ rw (wanted, gone) (due_rows-attempts ds hs)
        | inr (w, found) ↦
            rw (wanted, found)
              (λ k. ap (λ (x : Delivery). x.attempts) (h k), due_rows-attempts ds hs)
      ]
    ]

    due_rows-none :
        (ds : List Delivery)
        → Only d ds
        → wants_retry now d ≡ false
        → times_of id (due_rows now hooks ds) ≡ 0
    unfolding due_rows
    due_rows-none [] h settled = refl
    due_rows-none (e ∷ ds) (h, hs) settled = elim (Bool-cases (e.id == id)) [
      | inr other ↦ ground (arith, other, due_rows-none ds hs settled)
      | inl same ↦
          let settled' : wants_retry now e ≡ false =
            ap (λ (x : Delivery). wants_retry now x) (h same) ∙ settled in
          rw settled' (due_rows-none ds hs settled)
    ]

  take_rows-All {κ} :
      (P : PendingRow → Type κ) (n : ℕ) (ps : List PendingRow) → All P ps → All P (take_rows n ps)
  take_rows-All P zero ps h = tt
  take_rows-All P (suc n) [] h = tt
  take_rows-All P (suc n) (p ∷ ps) (h, hs) = (h, take_rows-All P n ps hs)

  abbrev older : Delivery → Delivery → Bool
  older a b = leb a.created_at b.created_at

  module _ (now : ℕ) (d : Delivery) (t : Tables) (found : find_delivery id t.deliveries ≡ some d)
      (keyed : rows_of id t.deliveries ≤ 1) where
    sorted_Only : Only d (sort_by older t.deliveries)
    sorted_Only =
        sort_by-All (λ (e : Delivery). (e.id == id) ≡ true → e ≡ d) older t.deliveries
          (find_delivery-Only d t.deliveries found keyed)

    select_pending-attempts :
        All
          (λ (p : PendingRow). (p.delivery_id == id) ≡ true → p.attempts ≡ d.attempts)
          (select_pending now t)
    unfolding select_pending
    select_pending-attempts = take_rows-All _ 50 _ (due_rows-attempts now d t.hooks _ sorted_Only)

    select_pending-none : wants_retry now d ≡ false → times_of id (select_pending now t) ≡ 0
    unfolding select_pending
    select_pending-none settled = omega (
      arith,
      times_of-take id 50 (due_rows now t.hooks (sort_by older t.deliveries)),
      due_rows-none now d t.hooks (sort_by older t.deliveries) sorted_Only settled,
    )

  -- A write to another row, or one that fails, leaves the row alone.
  write_row-other :
      (q : Bytes) (f : Delivery → Delivery) (db : Database Tables)
      → ((e : Delivery) → (f e).id ≡ e.id)
      → (q == id) ≡ false
      → row_in id (write_row q f db) ≡ row_in id db
  write_row-other q f db keep other =
      ground (arith, find_delivery-update id q f db.tables.deliveries keep)

  write_row-rows :
      (q : Bytes) (f : Delivery → Delivery) (db : Database Tables)
      → ((e : Delivery) → (f e).id ≡ e.id)
      → rows_of id (write_row q f db).tables.deliveries ≡ rows_of id db.tables.deliveries
  write_row-rows q f db keep = ground (arith, rows_of-update id q f db.tables.deliveries keep)

  module _ (hmac : Bytes → Bytes → Bytes) (show_status : ℕ → Bytes)
      (client : Bytes → Outgoing → Outcome) (now : ℕ) where
    abbrev all_retried : List PendingRow → Database Tables → Database Tables
    all_retried ps db = retry_all hmac show_status client now ps db

    mark_retry-other :
        (p : PendingRow) (msg : Bytes) (db : Database Tables)
        → (p.delivery_id == id) ≡ false
        → row_in id (mark_retry now p msg db) ≡ row_in id db
    unfolding mark_retry
    mark_retry-other p msg db other = elim (Bool-cases (leb max_attempts (p.attempts + 1))) [
      | inl e ↦
          rw e
            (write_row-other p.delivery_id (retried (p.attempts + 1) msg none) db (λ x. refl) other)
      | inr e ↦ rw e (
          write_row-other p.delivery_id
            (retried (p.attempts + 1) msg (some (now + backoff (p.attempts + 1)))) db (λ x. refl)
            other)
    ]

    mark_retry-rows :
        (p : PendingRow) (msg : Bytes) (db : Database Tables)
        → rows_of id (mark_retry now p msg db).tables.deliveries ≡ rows_of id db.tables.deliveries
    unfolding mark_retry
    mark_retry-rows p msg db = elim (Bool-cases (leb max_attempts (p.attempts + 1))) [
      | inl e ↦
          rw e (write_row-rows p.delivery_id (retried (p.attempts + 1) msg none) db (λ x. refl))
      | inr e ↦ rw e (
          write_row-rows p.delivery_id
            (retried (p.attempts + 1) msg (some (now + backoff (p.attempts + 1)))) db (λ x. refl))
    ]

    settle-other :
        (p : PendingRow) (o : Outcome) (db : Database Tables)
        → (p.delivery_id == id) ≡ false
        → row_in id (settle hmac show_status now p o db) ≡ row_in id db
    settle-other p (unsent msg) db other = mark_retry-other p msg db other
    settle-other p (unanswered msg) db other = mark_retry-other p msg db other
    settle-other p (answered status) db other = elim (Bool-cases (is_success status)) [
      | inl e ↦ rw e (write_row-other p.delivery_id (succeeded now) db (λ x. refl) other)
      | inr e ↦ rw e (mark_retry-other p (show_status status) db other)
    ]

    settle-rows :
        (p : PendingRow) (o : Outcome) (db : Database Tables)
        → rows_of id (settle hmac show_status now p o db).tables.deliveries
          ≡ rows_of id db.tables.deliveries
    settle-rows p (unsent msg) db = mark_retry-rows p msg db
    settle-rows p (unanswered msg) db = mark_retry-rows p msg db
    settle-rows p (answered status) db = elim (Bool-cases (is_success status)) [
      | inl e ↦ rw e (write_row-rows p.delivery_id (succeeded now) db (λ x. refl))
      | inr e ↦ rw e (mark_retry-rows p (show_status status) db)
    ]

    retry_all-other :
        (ps : List PendingRow) (db : Database Tables)
        → times_of id ps ≡ 0
        → row_in id (all_retried ps db) ≡ row_in id db
    unfolding retry_all retry_one
    retry_all-other [] db h = refl
    retry_all-other (p ∷ ps) db h =
        let o = client p.delivery_id (outgoing hmac show_status p) in
        retry_all-other ps (settle hmac show_status now p o db) (ground arith)
        ∙ settle-other p o db (ground arith)

    retry_all-rows :
        (ps : List PendingRow) (db : Database Tables)
        → rows_of id (all_retried ps db).tables.deliveries ≡ rows_of id db.tables.deliveries
    unfolding retry_all retry_one
    retry_all-rows [] db = refl
    retry_all-rows (p ∷ ps) db =
        let o = client p.delivery_id (outgoing hmac show_status p) in
        retry_all-rows ps (settle hmac show_status now p o db) ∙ settle-rows p o db

    run_once-rows :
        (db : Database Tables)
        → rows_of id (run_once hmac show_status client now db).tables.deliveries
          ≡ rows_of id db.tables.deliveries
    unfolding run_once
    run_once-rows db = ground (
      arith,
      retry_all-rows (select_pending now db.tables) (query (λ t. ok (select_pending now t)) db).1,
    )

    -- A tick leaves a row alone that does not want a retry, whatever statements fail.
    run_once-settled :
        (db : Database Tables) (d : Delivery)
        → rows_of id db.tables.deliveries ≤ 1
        → row_in id db ≡ some d
        → wants_retry now d ≡ false
        → row_in id (run_once hmac show_status client now db) ≡ some d
    unfolding run_once
    run_once-settled db d keyed found settled = ground (
      arith,
      select_pending-none now d db.tables found keyed settled,
      retry_all-other (select_pending now db.tables) (query (λ t. ok (select_pending now t)) db).1,
    )

  module _ (hmac : Bytes → Bytes → Bytes) (show_status : ℕ → Bytes) where
    -- A delivery that is settled, being delivered, still on its first attempt, or attempted six times,
    -- is left as it is by the worker, however long it runs and whatever statements fail.
    pub worker_loop-settled :
        (ticks : List Tick) (db : Database Tables) (d : Delivery)
        → rows_of id db.tables.deliveries ≤ 1
        → row_in id db ≡ some d
        → (is_failed d.status && ltb d.attempts max_attempts) ≡ false
        → row_in id (worker_loop hmac show_status ticks db) ≡ some d
    unfolding worker_loop wants_retry
    worker_loop-settled [] db d keyed found settled = found
    worker_loop-settled (t ∷ ts) db d keyed found settled =
        worker_loop-settled ts (run_once hmac show_status t.client t.now db) d
          (rw (run_once-rows hmac show_status t.client t.now db) keyed)
          (run_once-settled hmac show_status t.client t.now db d keyed found (ground arith)) settled

    -- How often a tick posts the delivery, and how often all ticks do.
    abbrev posted_of : Result (List PendingRow) → ℕ
    posted_of (ok ps) = times_of id ps
    posted_of (err e) = 0

    unfoldable pub posts : List Tick → Database Tables → ℕ
    posts [] db = 0
    posts (t ∷ ts) db =
        posted_of (query (λ tables. ok (select_pending t.now tables)) db).0
        + posts ts (run_once hmac show_status t.client t.now db)

    tick-attempts :
        (t : Tick) (db : Database Tables) (d : Delivery)
        → db.faults ≡ []
        → rows_of id db.tables.deliveries ≤ 1
        → row_in id db ≡ some d
        → (d' : Delivery) × (row_in id (run_once hmac show_status t.client t.now db) ≡ some d')
          × (d'.attempts ≡ d.attempts + times_of id (select_pending t.now db.tables))
          × ((run_once hmac show_status t.client t.now db).faults ≡ [])
          × (times_of id (select_pending t.now db.tables) ≢ 0 → d.attempts < max_attempts)
    unfolding run_once
    tick-attempts t db d calm keyed found =
        let ps = select_pending t.now db.tables in
        let once : times_of id ps ≤ 1 = omega (arith, select_pending-le id t.now db.tables) in
        let done =
          retry_all-attempts id hmac show_status t.client t.now ps db d calm found once
            (select_pending-attempts t.now d db.tables found keyed) in
        (
          done.0,
          ground (arith, calm, done.1),
          done.2,
          ground (arith, calm, done.3),
          λ posted. elim (Bool-cases (wants_retry t.now d)) [
            | inl wanted ↦ unfold wants_retry in ground arith
            | inr settled ↦
                absurd (posted (select_pending-none t.now d db.tables found keyed settled))
          ],
        )

    -- The worker gives up: however long it runs, it posts a delivery no more often than brings its
    -- attempts to six, if no statement fails.
    pub posts_bounded :
        (ticks : List Tick) (db : Database Tables) (d : Delivery)
        → db.faults ≡ []
        → rows_of id db.tables.deliveries ≤ 1
        → row_in id db ≡ some d
        → d.attempts ≤ max_attempts
        → d.attempts + posts ticks db ≤ max_attempts
    unfolding posts
    posts_bounded [] db d calm keyed found h = omega arith
    posts_bounded (t ∷ ts) db d calm keyed found h =
        let tick = tick-attempts t db d calm keyed found in
        let once : times_of id (select_pending t.now db.tables) ≤ 1 =
          omega (arith, select_pending-le id t.now db.tables) in
        let later =
          posts_bounded ts (run_once hmac show_status t.client t.now db) tick.0 tick.3
            (rw (run_once-rows hmac show_status t.client t.now db) keyed) tick.1
            (ground (arith, tick.2, tick.4)) in
        ground (arith, calm, tick.2, later)
