-- ===== src/Webhook/Tables.antt =====
-- The tables of migrations/0002_webhooks.up.sql and the statements of internal/webhook on them.
use packrune.Prelude.{
  ℕ, Bool, true, false, not, ◌||◌, Option, none, some, List, [], ◌∷◌, Bytes, ◌==◌, if◌then◌else◌,
}
use packrune.Action.{io, Result, ok, err}

pub data Status : Type 0 where
  pending delivered failed : Status

abbrev pub is_failed : Status → Bool
is_failed pending = false
is_failed delivered = false
is_failed failed = true

-- A row of `webhooks`; `events` is the text of the column.
pub record Hook : Type 0 where
  pub id : Bytes
  pub name : Bytes
  pub url : Bytes
  pub secret : Bytes
  pub events : Bytes
  pub is_active : Bool
  pub created_at : ℕ

-- A row of `webhook_deliveries`.
pub record Delivery : Type 0 where
  pub id : Bytes
  pub webhook_id : Bytes
  pub event : Bytes
  pub payload : Bytes
  pub status : Status
  pub attempts : ℕ
  pub last_error : Bytes
  pub next_attempt_at : Option ℕ
  pub delivered_at : Option ℕ
  pub created_at : ℕ

pub record Tables : Type 0 where
  pub hooks : List Hook
  pub deliveries : List Delivery

unfoldable pub find_hook : Bytes → List Hook → Option Hook
find_hook id [] = none
find_hook id (h ∷ hs) = if h.id == id then some h else find_hook id hs

unfoldable pub find_delivery : Bytes → List Delivery → Option Delivery
find_delivery id [] = none
find_delivery id (d ∷ ds) = if d.id == id then some d else find_delivery id ds

-- UPDATE webhook_deliveries SET … WHERE id = ?
unfoldable pub update_delivery : Bytes → (Delivery → Delivery) → List Delivery → List Delivery
update_delivery id f [] = []
update_delivery id f (d ∷ ds) =
    let rest = update_delivery id f ds in if d.id == id then f d ∷ rest else d ∷ rest

unfoldable pub without_hook : Bytes → List Hook → List Hook
without_hook id [] = []
without_hook id (h ∷ hs) = let rest = without_hook id hs in if h.id == id then rest else h ∷ rest

-- ON DELETE CASCADE
unfoldable pub without_deliveries : Bytes → List Delivery → List Delivery
without_deliveries id [] = []
without_deliveries id (d ∷ ds) =
    let rest = without_deliveries id ds in if d.webhook_id == id then rest else d ∷ rest

abbrev found {ℓ} : {A : Type ℓ} → Option A → Bool
found none = false
found (some a) = true

-- INSERT INTO webhooks
unfoldable pub insert_hook : Hook → Tables → Result Tables
insert_hook h t =
    if found (find_hook h.id t.hooks) then err io else ok (record t { hooks = h ∷ t.hooks })

-- INSERT INTO webhook_deliveries, with the primary key and the reference to the subscription.
unfoldable pub insert_delivery : Delivery → Tables → Result Tables
insert_delivery d t =
    if found (find_delivery d.id t.deliveries) || not (found (find_hook d.webhook_id t.hooks))
    then err io
    else ok (record t { deliveries = d ∷ t.deliveries })
