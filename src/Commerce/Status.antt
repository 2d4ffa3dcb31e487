-- ===== src/Commerce/Status.antt =====
-- internal/commerce/model.go (OrderStatus) and internal/commerce/state_machine.go.
-- A status is a Go string: `other` stands for every text that is none of the nine constants.
pub mod Lifecycle
use fulfillhub_go_commerce_p.Prelude.{
  String, Bool, true, false, List, [], ◌∷◌, any, str_eq, if◌then◌else◌, not, Option, none, some,
}

pub data OrderStatus : Type 0 where
  pending_fulfillment inventory_reserved payment_authorized shipment_created : OrderStatus
  cancellation_pending manual_review cancelled completed failed : OrderStatus
  other : String → OrderStatus

unfoldable pub status_text : OrderStatus → String
status_text pending_fulfillment = "pending_fulfillment"
status_text inventory_reserved = "inventory_reserved"
status_text payment_authorized = "payment_authorized"
status_text shipment_created = "shipment_created"
status_text cancellation_pending = "cancellation_pending"
status_text manual_review = "manual_review"
status_text cancelled = "cancelled"
status_text completed = "completed"
status_text failed = "failed"
status_text (other s) = s

-- `==` of two statuses.
unfoldable pub status_eq : OrderStatus → OrderStatus → Bool
status_eq pending_fulfillment pending_fulfillment = true
status_eq inventory_reserved inventory_reserved = true
status_eq payment_authorized payment_authorized = true
status_eq shipment_created shipment_created = true
status_eq cancellation_pending cancellation_pending = true
status_eq manual_review manual_review = true
status_eq cancelled cancelled = true
status_eq completed completed = true
status_eq failed failed = true
status_eq (other s) (other t) = str_eq s t
status_eq _ _ = false

unfoldable pub valid_order_statuses : List OrderStatus
valid_order_statuses =
    pending_fulfillment ∷ inventory_reserved ∷ payment_authorized ∷ shipment_created
    ∷ cancellation_pending ∷ manual_review ∷ cancelled ∷ completed ∷ failed ∷ []

unfoldable pub is_valid_order_status : OrderStatus → Bool
unfolding valid_order_statuses status_eq
is_valid_order_status status = any (status_eq status) valid_order_statuses

-- The nested `switch` of `CanTransitionOrderStatus`.
listed_transition : OrderStatus → OrderStatus → Bool
listed_transition pending_fulfillment inventory_reserved = true
listed_transition pending_fulfillment cancellation_pending = true
listed_transition pending_fulfillment failed = true
listed_transition inventory_reserved payment_authorized = true
listed_transition inventory_reserved cancellation_pending = true
listed_transition inventory_reserved cancelled = true
listed_transition payment_authorized shipment_created = true
listed_transition payment_authorized cancellation_pending = true
listed_transition shipment_created completed = true
listed_transition shipment_created cancellation_pending = true
listed_transition cancellation_pending cancelled = true
listed_transition cancellation_pending manual_review = true
listed_transition _ _ = false

unfoldable pub can_transition : OrderStatus → OrderStatus → Bool
unfolding listed_transition is_valid_order_status
can_transition from to =
    if status_eq from to then is_valid_order_status to else listed_transition from to

-- The three refusals of `ValidateOrderTransition`, each an `ErrInvalidStateTransition`.
pub data TransitionIssue : Type 0 where
  unknown_source unknown_target : OrderStatus → TransitionIssue
  cannot_move : OrderStatus → OrderStatus → TransitionIssue

unfoldable pub validate_order_transition : OrderStatus → OrderStatus → Option TransitionIssue
unfolding is_valid_order_status can_transition
validate_order_transition from to =
    if not (is_valid_order_status from)
    then some (unknown_source from)
    else if not (is_valid_order_status to)
    then some (unknown_target to)
    else if not (can_transition from to)
    then some (cannot_move from to)
    else none
