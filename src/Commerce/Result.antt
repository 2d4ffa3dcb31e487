-- ===== src/Commerce/Result.antt =====
-- The errors of internal/commerce, and operations that read and write a state and may fail. What an
-- operation wrote before it fails stays written, so the state comes back beside an error too.
use fulfillhub_go_commerce_p.Prelude.{String, Option, none, some, List, Bool, true, false}
use fulfillhub_go_commerce_p.Prelude.Text.{◌++◌}
use fulfillhub_go_commerce_p.Commerce.Status.{
  TransitionIssue, unknown_source, unknown_target, cannot_move, status_text,
}

pub record FieldError : Type 0 where
  pub name : String
  pub issue : String

-- `insufficient_stock` is wrapped with the sku it is about, where the store names one. `failure` is any error that is none of the package's own, with its text.
pub data Error : Type 0 where
  duplicate_order not_found : Error
  insufficient_stock : Option String → Error
  invalid_state_transition : Option TransitionIssue → Error
  validation : List FieldError → Error
  failure : String → Error

-- `err.Error()`; the statuses of a transition issue are quoted without escapes.
unfoldable pub error_text : Error → String
error_text duplicate_order = "duplicate order"
error_text not_found = "not found"
error_text (insufficient_stock none) = "insufficient stock"
error_text (insufficient_stock (some sku)) = "insufficient stock for sku " ++ sku
error_text (invalid_state_transition none) = "invalid state transition"
error_text (invalid_state_transition (some (unknown_source s))) =
    "invalid state transition: unknown source order status \"" ++ status_text s ++ "\""
error_text (invalid_state_transition (some (unknown_target s))) =
    "invalid state transition: unknown target order status \"" ++ status_text s ++ "\""
error_text (invalid_state_transition (some (cannot_move s t))) =
    "invalid state transition: cannot move order from \""
    ++ status_text s
    ++ "\" to \""
    ++ status_text t
    ++ "\""
error_text (validation fields) = "validation failed"
error_text (failure s) = s

pub data Result {ℓ} (A : Type ℓ) : Type ℓ where
  ok : A → Result A
  err : Error → Result A

abbrev pub is_ok {ℓ} : {A : Type ℓ} → Result A → Bool
is_ok (ok a) = true
is_ok (err e) = false

abbrev pub Op {ℓ} : Type ℓ → Type ℓ → Type ℓ
Op S A = S → Result A × S

module _ {ℓ} {S A : Type ℓ} where
  abbrev pub return : A → Op S A
  return a s = (ok a, s)

  abbrev pub fail : Error → Op S A
  fail e s = (err e, s)

  abbrev pub gets : (S → A) → Op S A
  gets f s = (ok (f s), s)

  abbrev pub or_fail : Option A → Error → Op S A
  or_fail none e s = (err e, s)
  or_fail (some a) e s = (ok a, s)

module _ {ℓ} {S A B : Type ℓ} where
  abbrev pub continue : Result A → (A → Op S B) → Op S B
  continue (ok a) f s = f a s
  continue (err e) f s = (err e, s)

  infixl 5 ◌>>=◌ ◌>>◌
  abbrev pub ◌>>=◌ : Op S A → (A → Op S B) → Op S B
  ◌>>=◌ m f s = let (r, s') = m s in continue r f s'

  abbrev pub ◌>>◌ : Op S A → Op S B → Op S B
  m >> n = m >>= λ _. n

module _ {S : Type 0} where
  abbrev pub modify : (S → S) → Op S (Unit {0})
  modify f s = (ok tt, f s)
