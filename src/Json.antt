-- ===== src/Json.antt =====
-- The values of `map[string]any` that the program builds and encodes as JSON.
-- `timestamp` stands for the RFC 3339 text of an instant.
use fulfillhub_go_commerce_p.Prelude.{
  ℕ, String, ◌≡◌, refl, Bool, true, false, Option, none, some, arith, str_eq, eq_iff, is_some,
  if◌then◌else◌,
}

mutual
  pub data Value : Type 0 where
    text : String → Value
    number : ℕ → Value
    timestamp : ℕ → Value
    object : Fields → Value
    array : Items → Value

  pub data Items : Type 0 where
    nil : Items
    cons : Value → Items → Items

  -- A `map[string]any`.
  pub data Fields : Type 0 where
    end : Fields
    field : String → Value → Fields → Fields

-- `payload[key]`
pub get : Fields → String → Option Value
get end k = none
get (field j v fs) k = if str_eq j k then some v else get fs k

abbrev pub has : Fields → String → Bool
has fs k = is_some (get fs k)

-- `payload[key] = v`
pub put : Fields → String → Value → Fields
put end k v = field k v end
put (field j w fs) k v =
    let rest = put fs k v in if str_eq j k then field k v fs else field j w rest

-- `len(payload) == 0`
abbrev pub is_empty : Fields → Bool
is_empty end = true
is_empty (field k v fs) = false

pub get-put :
    (fs : Fields) (k j : String) (v : Value)
    → get (put fs k v) j ≡ (if str_eq k j then some v else get fs j)
unfolding get put
get-put end k j v = refl
get-put (field i w fs) k j v = ground (arith, eq_iff k j, eq_iff i k, eq_iff i j, get-put fs k j v)

pub is_empty-put : (fs : Fields) (k : String) (v : Value) → is_empty (put fs k v) ≡ false
unfolding put
is_empty-put end k v = refl
is_empty-put (field i w fs) k v = ground arith
