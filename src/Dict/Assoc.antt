-- ===== src/Dict/Assoc.antt =====
-- The association list under `Dict`.
use mathlib.Core.Option.{some-injective}
use fulfillhub_go_commerce_p.Prelude.{
  String, ◌≡◌, ap, ◌∙◌, Bool, true, Bool-cases, inl, inr, Option, none, some, List, [], ◌∷◌, arith,
  str_eq, eq_iff, if◌then◌else◌,
}

module _ {ℓ} {V : Type ℓ} where
  unfoldable pub value_of : String → List (String × V) → Option V
  value_of key [] = none
  value_of key ((name, value) ∷ rest) = if str_eq name key then some value else value_of key rest

  unfoldable pub drop_key : String → List (String × V) → List (String × V)
  drop_key key [] = []
  drop_key key ((name, value) ∷ rest) =
      let kept = drop_key key rest in if str_eq name key then kept else (name, value) ∷ kept

  pub value_of-drop_key :
      (key other : String) (bindings : List (String × V))
      → value_of other (drop_key key bindings)
        ≡ (if str_eq key other then none else value_of other bindings)
  unfolding value_of drop_key
  value_of-drop_key key other [] = ground arith
  value_of-drop_key key other ((name, value) ∷ rest) = ground (
    arith,
    value_of-drop_key key other rest,
    eq_iff name key,
    eq_iff name other,
    eq_iff key other,
  )

  -- The entries whose value passes a test.
  unfoldable pub keep_if : (V → Bool) → List (String × V) → List (String × V)
  keep_if p [] = []
  keep_if p ((name, value) ∷ rest) =
      let kept = keep_if p rest in if p value then (name, value) ∷ kept else kept

  pub value_of-keep_if :
      (p : V → Bool) (key : String) (value : V) (bindings : List (String × V))
      → value_of key bindings ≡ some value
      → p value ≡ true
      → value_of key (keep_if p bindings) ≡ some value
  unfolding value_of keep_if
  value_of-keep_if p key value [] h live = h
  value_of-keep_if p key value ((name, x) ∷ rest) h live = elim (Bool-cases (str_eq name key)) [
    | inl hit ↦
        let same = some-injective x value (rw hit at h) in
        rw (ap p same ∙ live) (rw hit (ap some same))
    | inr miss ↦ elim (Bool-cases (p x)) [
      | inl kept ↦ rw kept (rw miss (value_of-keep_if p key value rest (rw miss at h) live))
      | inr gone ↦ rw gone (value_of-keep_if p key value rest (rw miss at h) live)
    ]
  ]
