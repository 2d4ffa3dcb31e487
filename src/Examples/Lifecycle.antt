-- ===== src/Examples/Lifecycle.antt =====
-- The state machine and the text helpers.
use fulfillhub_go_commerce_p.Prelude.{◌≡◌, refl, ◌↔◌, ◌⊎◌, inl, inr, none}
use fulfillhub_go_commerce_p.Prelude.Text.{trim_space, decimal}
use fulfillhub_go_commerce_p.Commerce.Status.{
  pending_fulfillment, inventory_reserved, cancelled, validate_order_transition,
}
use fulfillhub_go_commerce_p.Commerce.Status.Lifecycle.{
  ◌⟶◌, ◌⟶*◌, here, then, reserve, cancel_reserved, cancel, IsKnown, drawn,
  validate_order_transition_iff, terminal_absorbs,
}

trim_both_ends : trim_space "  ab c " ≡ "ab c"
unfolding trim_space
trim_both_ends = refl

decimal_digits : decimal 1207 ≡ "1207"
unfolding decimal
decimal_digits = refl

validate_order_transition_iff_example :
    (validate_order_transition pending_fulfillment inventory_reserved ≡ none) ↔ (
      IsKnown pending_fulfillment
      × ((pending_fulfillment ≡ inventory_reserved) ⊎ (pending_fulfillment ⟶ inventory_reserved)))
validate_order_transition_iff_example =
    validate_order_transition_iff pending_fulfillment inventory_reserved

abbrev cancelled_life : pending_fulfillment ⟶* cancelled
cancelled_life = then (then (then here (drawn reserve)) (drawn cancel_reserved)) (drawn cancel)

cancelled_stays : cancelled ≡ cancelled
cancelled_stays = terminal_absorbs (inr (inl refl)) here
