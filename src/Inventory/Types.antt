-- ===== src/Inventory/Types.antt =====
-- The rows, inputs, responses and errors of inventory.service.ts, and the tables that it writes.
-- Identifiers (UUIDs) and instants (milliseconds) are natural numbers.
use lotzi.Base.{ℕ, Bool, String, Option, List, true, false}
use lotzi.Base.Int.{ℤ}

pub data ReservationStatus : Type 0 where
  active confirmed released expired : ReservationStatus

pub data LedgerType : Type 0 where
  reserved released sold refunded restocked manual_adjustment : LedgerType

pub data OperationStatus : Type 0 where
  in_progress completed failed : OperationStatus

pub data VariantStatus : Type 0 where
  active archived : VariantStatus

abbrev pub is_active : ReservationStatus → Bool
is_active ReservationStatus.active = true
is_active _ = false

abbrev pub is_confirmed : ReservationStatus → Bool
is_confirmed ReservationStatus.confirmed = true
is_confirmed _ = false

abbrev pub is_expired : ReservationStatus → Bool
is_expired ReservationStatus.expired = true
is_expired _ = false

-- A number of JavaScript, as `Number.isInteger` tells them apart.
pub data Number : Type 0 where
  whole : ℤ → Number
  fractional : Number

pub record Location : Type 0 where
  pub id : ℕ
  pub store_id : ℕ
  pub is_default : Bool

pub record InventoryItem : Type 0 where
  pub id : ℕ
  pub store_id : ℕ
  pub product_variant_id : ℕ
  pub location_id : ℕ
  pub available_stock : ℕ
  pub reserved_stock : ℕ
  pub sold_stock : ℕ
  pub low_stock_threshold : ℕ
  pub version : ℕ

-- The counters that `updateInventoryItem` writes.
pub record Counters : Type 0 where
  pub available_stock : ℕ
  pub reserved_stock : ℕ
  pub sold_stock : ℕ
  pub version : ℕ

pub record ProductVariant : Type 0 where
  pub id : ℕ
  pub product_id : ℕ
  pub store_id : ℕ  -- of its product
  pub status : VariantStatus
  pub stock : ℕ
  pub stock_on_hand : ℕ
  pub stock_reserved : ℕ
  pub stock_version : ℕ

pub record Summary : Type 0 where
  pub store_id : ℕ
  pub product_id : ℕ
  pub product_variant_id : ℕ
  pub available_stock : ℕ
  pub reserved_stock : ℕ
  pub sold_stock : ℕ
  pub in_stock : Bool
  pub variant_status : VariantStatus
  pub stock_version : ℕ

-- The texts that the code writes as the reason of a change; `text` is one that a caller gives.
pub data Reason : Type 0 where
  checkout_reserved cod_order_authorized payment_confirmed reservation_ttl_expired : Reason
  text : String → Reason

pub record Reservation : Type 0 where
  pub id : ℕ
  pub store_id : ℕ
  pub order_id : ℕ
  pub product_variant_id : ℕ
  pub location_id : ℕ
  pub quantity : ℕ
  pub status : ReservationStatus
  pub reason : Option Reason
  pub expires_at : ℕ
  pub confirmed_at : Option ℕ
  pub released_at : Option ℕ

pub data Actor : Type 0 where
  customer system merchant : Actor
  other : String → Actor

-- Idempotency keys: a caller's, and the template strings of this file.
pub data Key : Type 0 where
  given : String → Key
  reservation_expiry : ℕ → Key
  reserved_event confirmed_event cod_confirmed_event released_event : Key → ℕ → Key
  item_key : Key → ℕ → Key
  review_event : Key → Key
  low_stock : ℕ → ℕ → Key

pub record LedgerEntry : Type 0 where
  pub store_id : ℕ
  pub product_variant_id : ℕ
  pub location_id : ℕ
  pub order_id : Option ℕ
  pub reservation_id : Option ℕ
  pub type : LedgerType
  pub quantity : ℕ
  pub before_available_stock : ℕ
  pub after_available_stock : ℕ
  pub before_reserved_stock : ℕ
  pub after_reserved_stock : ℕ
  pub before_sold_stock : ℕ
  pub after_sold_stock : ℕ
  pub actor_type : Actor
  pub actor_user_id : Option ℕ
  pub reason : Reason
  pub idempotency_key : Key
  pub created_at : ℕ

pub data EventType : Type 0 where
  inventory_reserved inventory_confirmed inventory_released inventory_expired : EventType
  confirmation_requires_review inventory_low_stock inventory_initialized : EventType

-- The rows that a reserving call hands back, as selected in its `create`.
pub record ReservationRef : Type 0 where
  pub id : ℕ
  pub product_variant_id : ℕ
  pub location_id : ℕ
  pub quantity : ℕ

-- The answers of the order calls, which `inventory_operations` keeps as JSON.
pub data Response : Type 0 where
  reserved_stock : List ReservationRef → Response
  cod_confirmed : List ReservationRef → Response
  confirmed_stock already_confirmed reservation_missing no_active_reservations : Response
  reservation_not_active : List (ℕ × ReservationStatus) → Response
  reserved_counter_underflow : ℕ → Response
  released_stock : ReservationStatus → ℕ → Response
  applied : ℕ → ℕ → Response

-- The payload of an event.
pub data Payload : Type 0 where
  of_reservation : ℕ → ℕ → ℕ → ℕ → ℕ → Option Reason → Payload
  of_response : Response → Payload
  of_low_stock : ℕ → ℕ → ℕ → ℕ → Payload
  of_item : ℕ → ℕ → ℕ → Payload

pub record DomainEvent : Type 0 where
  pub event_type : EventType
  pub aggregate_id : ℕ
  pub store_id : ℕ
  pub idempotency_key : Key
  pub payload : Payload
  pub occurred_at : ℕ

pub data OperationKey : Type 0 where
  reserve_op cod_authorize_op confirm_op : ℕ → OperationKey
  release_op : ℕ → ReservationStatus → String → OperationKey
  adjust_op : String → OperationKey

pub data OperationType : Type 0 where
  reserve_order cod_authorize_order confirm_order release_order adjustment : OperationType

-- One line of an order.
pub record Line : Type 0 where
  pub product_variant_id : ℕ
  pub quantity : ℕ

-- What `hash` is given.
pub data HashInput : Type 0 where
  of_lines : ℕ → ℕ → List Line → HashInput
  of_order : ℕ → ℕ → HashInput
  of_release : ℕ → ℕ → ReservationStatus → String → HashInput
  of_adjustment : ℕ → ℕ → ℕ → ℤ → ℕ → String → HashInput

pub record Operation : Type 0 where
  pub operation_key : OperationKey
  pub operation_type : OperationType
  pub aggregate_id : ℕ
  pub request_hash : ℕ
  pub status : OperationStatus
  pub response : Option Response
  pub claimed_until : ℕ
  pub heartbeat_at : ℕ
  pub expires_at : ℕ

pub data AuditEvent : Type 0 where
  version_conflict reconcile_dry_run reconcile_apply : AuditEvent

pub record AuditLog : Type 0 where
  pub event_type : AuditEvent
  pub store_id : ℕ
  pub denied : Bool

pub data Error : Type 0 where
  quantity_invalid cart_too_large out_of_stock product_unavailable item_missing : Error
  lock_failed release_failed item_not_found version_conflict adjustment_invalid : Error
  key_reused operation_in_progress reconcile_busy : Error
  foreign_key_violation unique_violation record_not_found transaction_aborted : Error

-- The tables that the engine reads and writes.
pub record Db : Type 0 where
  pub locations : List Location
  pub items : List InventoryItem
  pub variants : List ProductVariant
  pub summaries : List Summary
  pub reservations : List Reservation
  pub ledger : List LedgerEntry
  pub operations : List Operation
  pub events : List DomainEvent
  pub audit_logs : List AuditLog

pub record CacheEntry : Type 0 where
  pub expires_at : ℕ
  pub store_id : ℕ
  pub location_id : ℕ

-- What `set_config` sets for the transaction that runs.
pub record TxSettings : Type 0 where
  pub current_store_id : Option ℕ
  pub is_platform_admin : Bool

-- The database, and what the process keeps beside it: the cache of default locations.
-- `drawn` counts the identifiers that `gen_random_uuid()` has given out.
pub record State : Type 0 where
  pub db : Db
  pub location_cache : List CacheEntry
  pub settings : TxSettings
  pub drawn : ℕ

-- What the code takes from outside: the time of the call, the identifiers that the database draws
-- and the digest of a request (`sha256` of its canonical JSON). `resumes` tells whether a transaction
-- of the database goes on after a statement that a unique index has refused; one of PostgreSQL is
-- aborted, and refuses every statement up to its end.
pub record Env : Type 0 where
  pub now : ℕ
  pub uuid : ℕ → ℕ
  pub hash : HashInput → ℕ
  pub resumes : Bool
