-- ===== src/Http/Errors.antt =====
-- The replies of the REST interface to what goes wrong, against the codes of the gRPC interface.
use go_ordersvc.Prelude.{
  ℕ, String, Bool, true, false, some, List, [], ◌∷◌, ◌≡◌, ◌≢◌, refl, ◌⊎◌, Option, none,
}
use go_ordersvc.Json.{Json}
use go_ordersvc.Platform.{Platform}
use go_ordersvc.Domain.Errors.{
  DomainError, order_not_found, invalid_customer_id, no_items, invalid_product_id,
  invalid_product_name, invalid_quantity, invalid_price, invalid_status, invalid_transition,
  order_already_deleted, concurrent_modification, Error, domain, wrapped,
}
use go_ordersvc.Http.Messages.{decode_create, decode_status, CreateOrderRequest}
use go_ordersvc.Http.Handlers.{Reply, json_reply, write_error, handle_service_error}
use go_ordersvc.Grpc.Handlers.{
  Code, not_found, invalid_argument, aborted, internal, unavailable, code_of,
}

-- The error with what `%w` puts around it, the outermost text first.
abbrev pub wrapped_in : List String → Error → Error
wrapped_in [] e = e
wrapped_in (m ∷ ms) e = wrapped m (wrapped_in ms e)

-- The HTTP status that says what a gRPC code says.
abbrev pub status_of : Code → ℕ
status_of not_found = 404
status_of invalid_argument = 400
status_of aborted = 409
status_of internal = 500
status_of unavailable = 503

-- The errors that an item's validation returns.
abbrev pub is_item_error : DomainError → Bool
is_item_error invalid_product_id = true
is_item_error invalid_product_name = true
is_item_error invalid_quantity = true
is_item_error invalid_price = true
is_item_error _ = false

module _ (p : Platform) where
  -- However often an error of the service was wrapped, the REST reply to it is the one to the error
  -- itself.
  pub handle_service_error-wrapped_in :
      (ms : List String) (e : Error)
      → handle_service_error {p = p} (wrapped_in ms e) ≡ handle_service_error e
  unfolding handle_service_error
  handle_service_error-wrapped_in [] e = refl
  handle_service_error-wrapped_in (m ∷ ms) e = handle_service_error-wrapped_in ms e

  -- The two interfaces agree on every error of the domain but those of an item and
  -- ErrOrderAlreadyDeleted: the REST status says what the gRPC code says.
  pub statuses_agree :
      (e : DomainError)
      → is_item_error e ≡ false
      → e ≢ order_already_deleted
      → (handle_service_error {p = p} (domain e)).status ≡ status_of (code_of (domain e))
  unfolding handle_service_error write_error json_reply code_of
  statuses_agree order_not_found h live = refl
  statuses_agree invalid_customer_id h live = refl
  statuses_agree no_items h live = refl
  statuses_agree invalid_product_id h live = cc
  statuses_agree invalid_product_name h live = cc
  statuses_agree invalid_quantity h live = cc
  statuses_agree invalid_price h live = cc
  statuses_agree invalid_status h live = refl
  statuses_agree invalid_transition h live = refl
  statuses_agree order_already_deleted h live = absurd (live refl)
  statuses_agree concurrent_modification h live = refl

  -- An item that does not validate is the caller's error for gRPC, and the server's for REST.
  pub item_errors_differ :
      (e : DomainError)
      → is_item_error e ≡ true
      → (code_of (domain e) ≡ invalid_argument)
        × ((handle_service_error {p = p} (domain e)).status ≡ 500)
  unfolding handle_service_error write_error json_reply code_of
  item_errors_differ order_not_found h = cc
  item_errors_differ invalid_customer_id h = cc
  item_errors_differ no_items h = cc
  item_errors_differ invalid_product_id h = (refl, refl)
  item_errors_differ invalid_product_name h = (refl, refl)
  item_errors_differ invalid_quantity h = (refl, refl)
  item_errors_differ invalid_price h = (refl, refl)
  item_errors_differ invalid_status h = cc
  item_errors_differ invalid_transition h = cc
  item_errors_differ order_already_deleted h = cc
  item_errors_differ concurrent_modification h = cc

module _ {p : Platform} {S : Type 0} where
  -- A request was turned away with status 400, and nothing was done.
  abbrev pub IsTurnedAway : S → Reply p × S → Type 0
  IsTurnedAway s (reply, s') = (reply.status ≡ 400) × (s' ≡ s)

module _ (p : Platform) where
  -- A body of POST that names no order: it cannot be read, or has no customer, or no items.
  abbrev pub IsIncomplete : Option (Json p.Float64) → Type 0
  IsIncomplete body =
      (decode_create p body ≡ none)
      ⊎ ((req : CreateOrderRequest p) × (decode_create p body ≡ some req)
          × ((req.customer_id ≡ "") ⊎ (req.items ≡ [])))

  -- A body of PATCH that names no status: it cannot be read, or its status is empty.
  abbrev pub NamesNoStatus : Option (Json p.Float64) → Type 0
  NamesNoStatus body = (decode_status p body ≡ none) ⊎ (decode_status p body ≡ some "")
