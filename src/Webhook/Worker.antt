-- ===== src/Webhook/Worker.antt =====
-- internal/webhook/worker.go: the retries of failed deliveries.
pub mod Attempts
pub mod Bounded
pub mod Waits
use packrune.Prelude.{
  ℕ, zero, suc, ◌+◌, ◌-◌, ◌*◌, ◌^◌, ◌%◌, Bool, true, false, not, ◌&&◌, ◌||◌, Option, none, some,
  List, [], ◌∷◌, ◌++◌, Bytes, codes, length, ◌==◌, ltb, leb, if◌then◌else◌, sort_by,
}
use packrune.Action.{Result, ok, err}
use packrune.Database.{Database, query, change}
use packrune.Webhook.Tables.{
  Status, pending, delivered, failed, is_failed, Hook, Delivery, Tables, find_hook, update_delivery,
}
use packrune.Webhook.Service.{
  Outgoing, Outcome, unsent, unanswered, answered, signature_of, is_success,
}

abbrev pub max_attempts : ℕ
max_attempts = 6

-- time.Minute, in nanoseconds
abbrev pub minute : ℕ
minute = 60 * 10 ^ 9

-- backoff: a time.Duration is an int64, whose bits these are.
unfoldable pub backoff : ℕ → ℕ
backoff attempt = 2 ^ (attempt - 1) % 2 ^ 64 * minute % 2 ^ 64

-- pendingRow
pub record PendingRow : Type 0 where
  pub delivery_id : Bytes
  pub webhook_id : Bytes
  pub event : Bytes
  pub payload : Bytes
  pub attempts : ℕ
  pub webhook_url : Bytes
  pub secret : Bytes

abbrev is_due : ℕ → Option ℕ → Bool
is_due now none = true
is_due now (some t) = leb t now

-- The conditions of the SELECT on a delivery.
unfoldable pub wants_retry : ℕ → Delivery → Bool
wants_retry now d =
    is_failed d.status && (ltb d.attempts max_attempts && is_due now d.next_attempt_at)

abbrev join_row : Delivery → Option Hook → Option PendingRow
join_row d none = none
join_row d (some w) = some (record {
  delivery_id = d.id;
  webhook_id = d.webhook_id;
  event = d.event;
  payload = d.payload;
  attempts = d.attempts;
  webhook_url = w.url;
  secret = w.secret;
})

abbrev add : Option PendingRow → List PendingRow → List PendingRow
add none ps = ps
add (some p) ps = p ∷ ps

-- INNER JOIN … WHERE …
unfoldable pub due_rows : ℕ → List Hook → List Delivery → List PendingRow
due_rows now hooks [] = []
due_rows now hooks (d ∷ ds) =
    let rest = due_rows now hooks ds in
    let joined = add (join_row d (find_hook d.webhook_id hooks)) rest in
    if wants_retry now d then joined else rest

abbrev pub take_rows : ℕ → List PendingRow → List PendingRow
take_rows zero ps = []
take_rows (suc n) [] = []
take_rows (suc n) (p ∷ ps) = p ∷ take_rows n ps

-- ORDER BY d.created_at ASC LIMIT 50
unfoldable pub select_pending : ℕ → Tables → List PendingRow
select_pending now t =
    take_rows 50
      (due_rows now t.hooks (sort_by (λ a b. leb a.created_at b.created_at) t.deliveries))

abbrev retried : ℕ → Bytes → Option ℕ → Delivery → Delivery
retried attempts msg next d = record d {
  attempts = attempts;
  last_error = msg;
  next_attempt_at = next;
}

abbrev succeeded : ℕ → Delivery → Delivery
succeeded now d = record d {
  status = delivered;
  attempts = d.attempts + 1;
  delivered_at = some now;
  last_error = [];
}

abbrev pub write_row : Bytes → (Delivery → Delivery) → Database Tables → Database Tables
write_row id f db =
    (change (λ t. ok (record t { deliveries = update_delivery id f t.deliveries })) db).1

-- markRetry
unfoldable pub mark_retry : ℕ → PendingRow → Bytes → Database Tables → Database Tables
mark_retry now p msg db =
    let attempts = p.attempts + 1 in
    if leb max_attempts attempts
    then write_row p.delivery_id (retried attempts msg none) db
    else write_row p.delivery_id (retried attempts msg (some (now + backoff attempts))) db

-- What the worker meets at one tick: the time, and the answers of the subscribers.
pub record Tick : Type 0 where
  pub now : ℕ
  pub client : Bytes → Outgoing → Outcome

module _ (hmac : Bytes → Bytes → Bytes) (show_status : ℕ → Bytes) where
  abbrev outgoing : PendingRow → Outgoing
  outgoing p = record {
    url = p.webhook_url;
    event = p.event;
    retry = some (p.attempts + 1);
    signature = signature_of hmac p.secret p.payload;
    body = p.payload;
  }

  abbrev settle : ℕ → PendingRow → Outcome → Database Tables → Database Tables
  settle now p (unsent msg) db = mark_retry now p msg db
  settle now p (unanswered msg) db = mark_retry now p msg db
  settle now p (answered status) db =
      if is_success status
      then write_row p.delivery_id (succeeded now) db
      else mark_retry now p (show_status status) db

  -- retryOne; `client` is what net/http makes of the request for a delivery.
  unfoldable pub retry_one :
      (Bytes → Outgoing → Outcome) → ℕ → PendingRow → Database Tables → Database Tables
  retry_one client now p db = settle now p (client p.delivery_id (outgoing p)) db

  unfoldable pub retry_all :
      (Bytes → Outgoing → Outcome) → ℕ → List PendingRow → Database Tables → Database Tables
  retry_all client now [] db = db
  retry_all client now (p ∷ ps) db = retry_all client now ps (retry_one client now p db)

  abbrev retry_found :
      (Bytes → Outgoing → Outcome)
      → ℕ
      → Result (List PendingRow)
      → Database Tables
      → Database Tables
  retry_found client now (ok ps) db = retry_all client now ps db
  retry_found client now (err e) db = db

  -- runOnce
  unfoldable pub run_once : (Bytes → Outgoing → Outcome) → ℕ → Database Tables → Database Tables
  run_once client now db =
      let (pending_rows, db') = query (λ t. ok (select_pending now t)) db in
      retry_found client now pending_rows db'

  -- workerLoop, over the ticks until the context is cancelled.
  unfoldable pub worker_loop : List Tick → Database Tables → Database Tables
  worker_loop [] db = db
  worker_loop (t ∷ ts) db = worker_loop ts (run_once t.client t.now db)
