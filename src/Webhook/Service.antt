-- ===== src/Webhook/Service.antt =====
-- internal/webhook/webhook.go: the subscriptions, and the first attempt of a delivery.
pub mod Events
use packrune.Prelude.{
  ℕ, zero, suc, ◌+◌, ◌≤◌, ◌<◌, Bool, true, false, not, ◌&&◌, ◌||◌, Option, none, some, List, [],
  ◌∷◌, ◌++◌, Bytes, codes, length, ◌==◌, ltb, leb, if◌then◌else◌, contains, split_column, join,
  sort_by,
}
use packrune.Action.{
  Error, bad_name, io, Result, ok, err, Action, ◌>>=◌, ◌>>◌, pure, raise, attempt,
}
use packrune.Database.{Database, query, change}
use packrune.Storage.Cas.Hash.{encode_hex}
use packrune.Webhook.Tables.{
  Status, pending, delivered, failed, Hook, Delivery, Tables, update_delivery, without_hook,
  without_deliveries, insert_hook, insert_delivery,
}

-- Webhook, as List and Create answer it.
pub record Webhook : Type 0 where
  pub id : Bytes
  pub name : Bytes
  pub url : Bytes
  pub secret : Bytes
  pub events : List Bytes
  pub is_active : Bool
  pub created_at : ℕ

abbrev read_row : Hook → Webhook
read_row h = record {
  id = h.id;
  name = h.name;
  url = h.url;
  secret = h.secret;
  events = split_column h.events;
  is_active = h.is_active;
  created_at = h.created_at;
}

unfoldable pub read_rows : List Hook → List Webhook
read_rows [] = []
read_rows (h ∷ hs) = read_row h ∷ read_rows hs

-- Create; `id` and `now` are what uuid and time deliver.
unfoldable pub create :
    Bytes → ℕ → Bytes → Bytes → Bytes → List Bytes → Action (Database Tables) Webhook
create id now name url secret events db =
    if name == [] || url == []
    then (err bad_name, db)
    else (do
      change (
          insert_hook (record {
            id = id;
            name = name;
            url = url;
            secret = secret;
            events = join events b',';
            is_active = true;
            created_at = now;
          }))
      pure (record {
        id = id;
        name = name;
        url = url;
        secret = secret;
        events = events;
        is_active = true;
        created_at = now;
      }))
        db

-- List, the newest first.
unfoldable pub list : Action (Database Tables) (List Webhook)
list = query (λ t. ok (read_rows (sort_by (λ a b. leb b.created_at a.created_at) t.hooks)))

-- Delete
unfoldable pub delete : Bytes → Action (Database Tables) (Unit {0})
delete id = change (λ t.
    ok
      (record { hooks = without_hook id t.hooks; deliveries = without_deliveries id t.deliveries }))

-- Whether the text of the column names the event.
unfoldable pub subscribes : Bytes → Bytes → Bool
subscribes events event =
    events == codes "*"
    || contains (codes "," ++ (events ++ codes ",")) (codes "," ++ (event ++ codes ","))

unfoldable pub subscribers_of : Bytes → List Hook → List Hook
subscribers_of event [] = []
subscribers_of event (h ∷ hs) =
    let rest = subscribers_of event hs in
    if h.is_active && subscribes h.events event then h ∷ rest else rest

-- subscribers
unfoldable pub subscribers : Bytes → Action (Database Tables) (List Hook)
subscribers event = query (λ t. ok (subscribers_of event t.hooks))

-- What is posted to a subscriber; `retry` is the header of a retry.
pub record Outgoing : Type 0 where
  pub url : Bytes
  pub event : Bytes
  pub retry : Option ℕ
  pub signature : Option Bytes
  pub body : Bytes

-- What net/http makes of it: no request, no answer, or a status.
pub data Outcome : Type 0 where
  unsent unanswered : Bytes → Outcome
  answered : ℕ → Outcome

-- X-Packrune-Signature; `hmac` is HMAC-SHA256 of crypto/hmac.
abbrev pub signature_of : (Bytes → Bytes → Bytes) → Bytes → Bytes → Option Bytes
signature_of hmac [] body = none
signature_of hmac (c ∷ secret) body = some (codes "sha256=" ++ encode_hex (hmac (c ∷ secret) body))

-- The text of an HTTP status in last_error; `show_status` is fmt.Sprintf.
abbrev pub is_success : ℕ → Bool
is_success status = leb 200 status && ltb status 300

abbrev set_status : Status → Bytes → ℕ → Delivery → Delivery
set_status delivered msg now d = record d {
  status = delivered;
  delivered_at = some now;
  last_error = [];
}
set_status pending msg now d = record d { status = pending; last_error = msg }
set_status failed msg now d = record d { status = failed; last_error = msg }

-- markDelivery, whose error is dropped.
unfoldable pub mark_delivery : Bytes → Status → Bytes → ℕ → Database Tables → Database Tables
mark_delivery id status msg now db =
    (change
      (λ t.
        ok (record t { deliveries = update_delivery id (set_status status msg now) t.deliveries }))
      db).1

module _ (hmac : Bytes → Bytes → Bytes) (show_status : ℕ → Bytes) where
  abbrev mark_outcome : Bytes → ℕ → Outcome → Database Tables → Database Tables
  mark_outcome id now (unsent msg) db = mark_delivery id failed msg now db
  mark_outcome id now (unanswered msg) db = mark_delivery id failed msg now db
  mark_outcome id now (answered status) db =
      if is_success status
      then mark_delivery id delivered [] now db
      else mark_delivery id failed (show_status status) now db

  -- deliver: the row is inserted, whatever becomes of that, and the event is posted.
  unfoldable pub deliver :
      (Outgoing → Outcome) → Bytes → ℕ → Bytes → Bytes → Hook → Database Tables → Database Tables
  deliver client id now event body hook db =
      let row : Delivery = record {
        id = id;
        webhook_id = hook.id;
        event = event;
        payload = body;
        status = pending;
        attempts = 1;
        last_error = [];
        next_attempt_at = none;
        delivered_at = none;
        created_at = now;
      } in
      let inserted = (change (insert_delivery row) db).1 in
      mark_outcome id now
        (client (record {
          url = hook.url;
          event = event;
          retry = none;
          signature = signature_of hmac hook.secret body;
          body = body;
        }))
        inserted

  -- The goroutines that Fire starts, one after the other; each has an id of its own.
  unfoldable pub deliver_all :
      (Bytes → Outgoing → Outcome)
      → (ℕ → Bytes)
      → ℕ
      → ℕ
      → Bytes
      → Bytes
      → List Hook
      → Database Tables
      → Database Tables
  deliver_all client ids n now event body [] db = db
  deliver_all client ids n now event body (h ∷ hs) db =
      deliver_all client ids (n + 1) now event body hs
        (deliver (client h.id) (ids n) now event body h db)

  abbrev fire_to :
      (Bytes → Outgoing → Outcome)
      → (ℕ → Bytes)
      → ℕ
      → Bytes
      → Option Bytes
      → Result (List Hook)
      → Database Tables
      → Database Tables
  fire_to client ids now event none (ok subs) db = db
  fire_to client ids now event (some body) (ok subs) db =
      deliver_all client ids 0 now event body subs db
  fire_to client ids now event body (err e) db = db

  -- Fire; `body` is what encoding/json makes of the payload.
  unfoldable pub fire :
      (Bytes → Outgoing → Outcome)
      → (ℕ → Bytes)
      → ℕ
      → Bytes
      → Option Bytes
      → Database Tables
      → Database Tables
  fire client ids now event body db =
      let (subs, db') = subscribers event db in fire_to client ids now event body subs db'
