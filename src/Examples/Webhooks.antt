-- ===== src/Examples/Webhooks.antt =====
-- The theorems on webhooks at concrete inputs.
use packrune.Prelude.{
  inl, ℕ, ◌+◌, ◌*◌, ◌^◌, ◌≤◌, ◌≡◌, refl, true, ◌||◌, none, List, [], ◌∷◌, arith, Bytes, codes, ◌==◌,
  split,
}
use packrune.Database.{Database}
use packrune.Webhook.Tables.{Hook, Delivery, Tables, failed, find_delivery}
use packrune.Webhook.Service.{subscribes, answered, unanswered}
use packrune.Webhook.Service.Events.{subscribes-lists, lists}
use packrune.Webhook.Worker.{Tick, PendingRow, mark_retry, select_pending}
use packrune.Webhook.Worker.Attempts.{map_row, row_in, times_of}
use packrune.Webhook.Worker.Waits.{after_failure, mark_retry_waits}
use packrune.Webhook.Worker.Bounded.{posts_bounded, posts}

subscribes-lists_example :
    subscribes (codes "push,pull") (codes "pull")
    ≡ (codes "push,pull" == codes "*" || lists (codes "pull") (split (codes "push,pull") b','))
subscribes-lists_example = subscribes-lists (codes "push,pull") (codes "pull") (
  λ e. omega (arith, e),
  (λ e. omega (arith, e), (λ e. omega (arith, e), (λ e. omega (arith, e), tt))),
)

abbrev hook : Hook
hook = record {
  id = codes "w";
  name = codes "ci";
  url = codes "http://ci";
  secret = [];
  events = codes "*";
  is_active = true;
  created_at = 1;
}

abbrev delivery : Bytes → ℕ → Delivery
delivery id attempts = record {
  id = id;
  webhook_id = codes "w";
  event = codes "push";
  payload = codes "{}";
  status = failed;
  attempts = attempts;
  last_error = codes "HTTP 500";
  next_attempt_at = none;
  delivered_at = none;
  created_at = 2;
}

abbrev database : Database Tables
database = record {
  tables = record {
    hooks = hook ∷ [];
    deliveries = delivery (codes "a") 5 ∷ delivery (codes "b") 6 ∷ [];
  };
  faults = [];
}

abbrev hmac : Bytes → Bytes → Bytes
hmac secret body = body

abbrev show_status : ℕ → Bytes
show_status status = codes "HTTP 500"

abbrev ticks : List Tick
ticks =
    record { now = 10; client = λ id out. answered 500 }
    ∷ record { now = 70; client = λ id out. unanswered (codes "timeout") }
    ∷ []

posts_bounded_example : 5 + posts (codes "a") hmac show_status ticks database ≤ 6
posts_bounded_example =
    posts_bounded (codes "a") hmac show_status ticks database (delivery (codes "a") 5) refl
      (unfold ◌==◌ in omega arith) (unfold ◌==◌ find_delivery in refl) (omega arith)

abbrev retry_database : Database Tables
retry_database = record {
  tables = record { hooks = hook ∷ []; deliveries = delivery (codes "c") 2 ∷ [] };
  faults = [];
}

abbrev retry_row : PendingRow
retry_row = record {
  delivery_id = codes "c";
  webhook_id = codes "w";
  event = codes "push";
  payload = codes "{}";
  attempts = 2;
  webhook_url = codes "http://ci";
  secret = [];
}

mark_retry_waits_example :
    let done = mark_retry 7 retry_row (codes "HTTP 500") retry_database in
    (row_in (codes "c") done
      ≡ map_row (after_failure 2 7 (codes "HTTP 500")) (row_in (codes "c") retry_database))
    × (times_of (codes "c") (select_pending (60 * 10 ^ 9) done.tables) ≡ 0)
mark_retry_waits_example =
    mark_retry_waits (codes "c") 7 retry_row (codes "HTTP 500") retry_database refl (60 * 10 ^ 9)
      refl (inl (omega arith))
