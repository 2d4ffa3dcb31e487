-- ===== src/Dict.antt =====
-- Go's `map[string]V`. The proofs outside this file use the laws only; tests compute.
-- A key stands in at most one entry, and `values` gives the entries in one of the orders in which
-- a Go `range` may visit them.
mod Assoc
use Assoc.{value_of, drop_key, keep_if, value_of-drop_key, value_of-keep_if}
use fulfillhub_go_commerce_p.Prelude.{
  String, ◌≡◌, refl, Bool, true, List, [], ◌∷◌, Option, none, some, arith, str_eq, if◌then◌else◌,
  map, is_some, eq_iff, ◌⊎◌, ◌≢◌,
}

pub record Dict {ℓ} (V : Type ℓ) : Type ℓ where
  bindings : List (String × V)

module _ {ℓ} {V : Type ℓ} where
  -- `m[key]`, with `none` where the key is missing.
  unfoldable pub get : Dict V → String → Option V
  unfolding value_of
  get m key = value_of key m.bindings

  -- `_, ok := m[key]`
  abbrev pub has : Dict V → String → Bool
  has m key = is_some (get m key)

  unfoldable pub values : Dict V → List V
  values m = map (λ b. b.1) m.bindings

  -- `m[key] = value`
  unfoldable pub put : Dict V → String → V → Dict V
  unfolding drop_key
  put m key value = record { bindings = (key, value) ∷ drop_key key m.bindings }

  -- `delete(m, key)`
  unfoldable pub remove : Dict V → String → Dict V
  unfolding drop_key
  remove m key = record { bindings = drop_key key m.bindings }

  -- `for key, value := range m { if !p(value) { delete(m, key) } }`
  unfoldable pub retain : (V → Bool) → Dict V → Dict V
  unfolding keep_if
  retain p m = record { bindings = keep_if p m.bindings }

  -- `make(map[string]V)`
  unfoldable pub empty : Dict V
  empty = record { bindings = [] }

  pub get-put :
      (m : Dict V) (key other : String) (value : V)
      → get (put m key value) other ≡ (if str_eq key other then some value else get m other)
  unfolding get put
  get-put m key other value = ground (arith, value_of-drop_key key other m.bindings)

  pub get-put_cases :
      (m : Dict V) (key other : String) (value : V)
      → ((key ≡ other) × (get (put m key value) other ≡ some value))
        ⊎ ((key ≢ other) × (get (put m key value) other ≡ get m other))
  get-put_cases m key other value = ground (arith, get-put m key other value, eq_iff key other)

  pub get-put_self :
      (m : Dict V) (key : String) (value : V) → get (put m key value) key ≡ some value
  get-put_self m key value = ground (arith, get-put m key key value, eq_iff key key)

  pub get-remove :
      (m : Dict V) (key other : String)
      → get (remove m key) other ≡ (if str_eq key other then none else get m other)
  unfolding get remove
  get-remove m key other = value_of-drop_key key other m.bindings

  pub get-retain :
      (p : V → Bool) (m : Dict V) (key : String) (value : V)
      → get m key ≡ some value
      → p value ≡ true
      → get (retain p m) key ≡ some value
  unfolding get retain
  get-retain p m key value h live = value_of-keep_if p key value m.bindings h live

  pub get-empty : (key : String) → get empty key ≡ none
  unfolding get empty
  get-empty key = refl

pub ruleset dict_laws = (get-put, get-put_self, get-remove, get-empty)
