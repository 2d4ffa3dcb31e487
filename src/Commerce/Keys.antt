-- ===== src/Commerce/Keys.antt =====
-- internal/commerce/store.go: `scopedKey`.
use Prim.Native.String.{◌++◌}
use fulfillhub_go_commerce_p.Prelude.{String}

unfoldable pub scoped_key : String → String → String
scoped_key merchant_id value = merchant_id ++ (":" ++ value)
