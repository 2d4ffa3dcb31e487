-- ===== src/Postgres/Tables.antt =====
-- internal/postgres/migrations: the rows that internal/postgres/store.go reads and writes, and what
-- SELECT, UPDATE and INSERT … ON CONFLICT do with the list of a table's rows. A row has a time and a
-- currency as they were written; what the column keeps of them shows where they are read.
use fulfillhub_go_commerce_p.Prelude.{
  ℕ, suc, ◌+◌, String, Bool, List, [], ◌∷◌, ◌++◌, map, any, Option, none, some, if◌then◌else◌,
}
use fulfillhub_go_commerce_p.Prelude.Int64.{Int64}
use fulfillhub_go_commerce_p.Commerce.Status.{OrderStatus}
use fulfillhub_go_commerce_p.Commerce.Model.{Time, ReservationStatus}
use fulfillhub_go_commerce_p.Commerce.Event.{EventType, AuditLog}

pub record OrderRow : Type 0 where
  pub order_id : String
  pub merchant_id : String
  pub external_order_id : String
  pub status : OrderStatus
  pub currency : String
  pub subtotal_amount : Int64
  pub shipping_amount : Int64
  pub total_amount : Int64
  pub payment_provider : Option String
  pub payment_status : Option String
  pub payment_authorization_id : Option String
  pub payment_credential_ref : Option String
  pub shipping_address_ref : Option String
  pub created_at : Time
  pub updated_at : Time
  pub version : ℕ

-- The rows of `order_items` stand in the order of their serial ids.
pub record ItemRow : Type 0 where
  pub order_id : String
  pub sku : String
  pub quantity : ℕ
  pub unit_price_amount : Int64
  pub unit_price_currency : String
  pub reservation_status : ReservationStatus

pub record IdempotencyRow : Type 0 where
  pub merchant_id : String
  pub idempotency_key : String
  pub order_id : String

pub record WarehouseRow : Type 0 where
  pub id : String
  pub merchant_id : String
  pub status : String

-- The rows of `inventory_items` stand in the order of their serial ids.
pub record InventoryRow : Type 0 where
  pub warehouse_id : String
  pub sku : String
  pub available_quantity : ℕ
  pub reserved_quantity : ℕ
  pub updated_at : Time

pub record StockRow : Type 0 where
  pub order_id : String
  pub warehouse_id : Option String
  pub sku : String
  pub quantity : ℕ
  pub status : ReservationStatus
  pub reserved_at : Time
  pub released_at : Option Time

pub record PaymentRow : Type 0 where
  pub authorization_id : String
  pub order_id : String
  pub merchant_id : String
  pub provider : String
  pub status : String
  pub amount : Int64
  pub currency : String
  pub authorized_at : Time
  pub voided_at : Option Time

pub record ShipmentRow : Type 0 where
  pub shipment_id : String
  pub order_id : String
  pub merchant_id : String
  pub carrier : String
  pub tracking_number : String
  pub status : String
  pub created_at : Time
  pub updated_at : Time

-- `payload` is the JSON of the whole envelope.
pub record OutboxRow : Type 0 where
  pub message_id : String
  pub correlation_id : String
  pub causation_id : String
  pub event_type : EventType
  pub order_id : String
  pub merchant_id : String
  pub payload : String
  pub occurred_at : Time
  pub published_at : Option Time
  pub claimed_until : Option Time

pub record InboxRow : Type 0 where
  pub consumer_name : String
  pub message_id : String
  pub correlation_id : String

-- The channel is always 'email'.
pub record NotificationRow : Type 0 where
  pub order_id : String
  pub merchant_id : String
  pub source_message_id : String
  pub source_event_type : EventType
  pub status : String
  pub correlation_id : String
  pub created_at : Time

pub record CompensationRow : Type 0 where
  pub order_id : String
  pub merchant_id : String
  pub source_message_id : String
  pub source_event_type : EventType
  pub action : String
  pub target_order_status : OrderStatus
  pub status : String
  pub correlation_id : String
  pub created_at : Time

pub record Database : Type 0 where
  pub merchants : List String
  pub orders : List OrderRow
  pub order_items : List ItemRow
  pub idempotency_keys : List IdempotencyRow
  pub warehouses : List WarehouseRow
  pub inventory_items : List InventoryRow
  pub stock_reservations : List StockRow
  pub payment_authorizations : List PaymentRow
  pub shipments : List ShipmentRow
  pub outbox_events : List OutboxRow
  pub inbox_messages : List InboxRow
  pub notification_events : List NotificationRow
  pub compensation_events : List CompensationRow
  pub audit_logs : List AuditLog

module _ {A : Type 0} where
  -- SELECT … WHERE p, for a column under a key: the row, where there is one.
  unfoldable pub select_row : (A → Bool) → List A → Option A
  select_row p [] = none
  select_row p (x ∷ xs) = let rest = select_row p xs in if p x then some x else rest

  unfoldable pub select : (A → Bool) → List A → List A
  select p [] = []
  select p (x ∷ xs) = let rest = select p xs in if p x then x ∷ rest else rest

  abbrev pub set_where : (A → Bool) → (A → A) → A → A
  set_where p f x = if p x then f x else x

  -- UPDATE … SET f WHERE p
  abbrev pub update : (A → Bool) → (A → A) → List A → List A
  update p f rows = map (set_where p f) rows

  -- INSERT … ON CONFLICT (key) DO UPDATE SET f, where p tests the key
  unfoldable pub upsert : (A → Bool) → A → (A → A) → List A → List A
  upsert p new f rows = if any p rows then update p f rows else rows ++ new ∷ []

  -- SELECT COUNT(*) … WHERE p
  unfoldable pub count : (A → Bool) → List A → ℕ
  count p [] = 0
  count p (x ∷ xs) = let rest = count p xs in if p x then suc rest else rest

  -- SELECT SUM(f) …
  unfoldable pub total : (A → ℕ) → List A → ℕ
  total f [] = 0
  total f (x ∷ xs) = f x + total f xs
