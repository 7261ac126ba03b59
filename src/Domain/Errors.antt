-- ===== src/Domain/Errors.antt =====
-- internal/domain/errors.go, and the errors of the outside world. Go's `error` values are told
-- apart by `==` on the sentinel values, and by `errors.Is` through the wrapping of `%w`.
use Prim.Native.String
use go_ordersvc.Prelude.{String}

-- The sentinel values of the package.
pub data DomainError : Type 0 where
  order_not_found invalid_customer_id no_items invalid_product_id invalid_product_name
        invalid_quantity invalid_price invalid_status invalid_transition order_already_deleted
        concurrent_modification :
      DomainError

-- `outside` is an error of a driver or of encoding/json with its message; `wrapped m e` is
-- `fmt.Errorf("m: %w", e)`.
pub data Error : Type 0 where
  domain : DomainError → Error
  outside : String → Error
  wrapped : String → Error → Error

-- The messages of the sentinel values.
abbrev pub message : DomainError → String
message order_not_found = "order not found"
message invalid_customer_id = "invalid customer ID"
message no_items = "order must have at least one item"
message invalid_product_id = "invalid product ID"
message invalid_product_name = "invalid product name"
message invalid_quantity = "quantity must be greater than 0"
message invalid_price = "price must be greater than 0"
message invalid_status = "invalid order status"
message invalid_transition = "invalid status transition"
message order_already_deleted = "order is already deleted"
message concurrent_modification = "order was modified by another process"

-- `err.Error()`
abbrev pub error_text : Error → String
error_text (domain e) = message e
error_text (outside m) = m
error_text (wrapped m e) = String.◌++◌ m (String.◌++◌ ": " (error_text e))
