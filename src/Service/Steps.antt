-- ===== src/Service/Steps.antt =====
-- The parts of internal/service/order_service_impl.go that its methods share or that stand under a
-- test of their own.
use go_ordersvc.Prelude.{
  ℕ, ⊤, ◌*◌, String, Option, none, some, List, [], ◌∷◌, str_eq, if◌then◌else◌,
}
use go_ordersvc.Prelude.Int.{ℤ, pos, ◌-ℤ◌, ◌*ℤ◌, ltb_ℤ, int64}
use go_ordersvc.Platform.{Platform}
use go_ordersvc.Effect.{Result, ok, err, Action, pure, run, throw, check, ◌>>=◌, ◌>>◌}
use go_ordersvc.Domain.Errors.{order_not_found, invalid_transition}
use go_ordersvc.Domain.Status.{OrderStatus, can_transition_to}
use go_ordersvc.Domain.Item
use go_ordersvc.Domain.Item.{OrderItem, calculate_subtotal}
use go_ordersvc.Domain.Order.{Order, calculate_total}
use go_ordersvc.Repository.Interface.{OrderRepository, ListOptions}
use go_ordersvc.Cache.Interface.{OrderCache}
use go_ordersvc.Service.Interface.{ListOrdersRequest, EventPublisher, Runtime}

-- 5 * time.Minute
abbrev pub order_cache_ttl : ℕ
order_cache_ttl = 5 * 60 * 1_000_000_000

-- The page and the page size of a request, with the defaults and the cap.
unfoldable pub effective_page : ListOrdersRequest → ℤ
effective_page req = if ltb_ℤ req.page (pos 1) then pos 1 else req.page

unfoldable pub effective_page_size : ListOrdersRequest → ℤ
effective_page_size req =
    let page_size = if ltb_ℤ req.page_size (pos 1) then pos 20 else req.page_size in
    if ltb_ℤ (pos 100) page_size then pos 100 else page_size

unfoldable pub list_options : ListOrdersRequest → ListOptions
unfolding effective_page effective_page_size
list_options req = record {
  limit = effective_page_size req;
  offset = int64 ((effective_page req -ℤ pos 1) *ℤ effective_page_size req);
  status = req.status;
}

module _ (p : Platform) where
  open p use {of_int, float_div, ceil_int}

  -- `int(math.Ceil(float64(totalCount) / float64(pageSize)))`
  unfoldable pub total_pages : ℤ → ℤ → ℤ
  total_pages total_count page_size = ceil_int (float_div (of_int total_count) (of_int page_size))

module _ {p : Platform} where
  open p use {UUID}

  abbrev pub new_item : UUID → OrderItem p → OrderItem p
  new_item id item = record {
    id = id;
    product_id = item.product_id;
    name = item.name;
    quantity = item.quantity;
    price = item.price;
    subtotal = calculate_subtotal item;
  }

module _ {p : Platform} {S : Type 0} where
  -- `order, err := s.repo.FindByID(ctx, id)` with the two returns that follow it.
  abbrev pub or_not_found : Option (Order p) → Action S (Order p)
  or_not_found none = throw order_not_found
  or_not_found (some order) = pure order

  abbrev pub find_existing : OrderRepository p S → String → Action S (Order p)
  find_existing repo id = repo.find_by_id id >>= or_not_found

  -- `req.CustomerID != nil && *req.CustomerID != ""`
  abbrev pub query :
      OrderRepository p S → Option String → ListOptions → Action S (List (Order p) × ℤ)
  query repo none opts = repo.list opts
  query repo (some customer_id) opts =
      if str_eq customer_id "" then repo.list opts else repo.find_by_customer_id customer_id opts

  -- `if dto.Status != nil { … }`
  unfoldable pub replace_status : Option OrderStatus → Order p → Action S (Order p)
  replace_status none order = pure order
  replace_status (some status) order =
      if can_transition_to order.status status
      then pure (record order { status = status })
      else throw invalid_transition

module _ {p : Platform} {S : Type 0} (rt : Runtime p S) where
  open p use {uuid_string}

  -- `if err := f(); err != nil { slog.Warn(…) }`
  abbrev pub warn_about : String → String → Result ⊤ → S → Result ⊤ × S
  warn_about message order_id (ok _) s = (ok tt, s)
  warn_about message order_id (err e) s = (ok tt, rt.warn message order_id e s)

  abbrev pub warn_on_error : String → String → Action S ⊤ → Action S ⊤
  warn_on_error message order_id m s = let (r, s') = m s in warn_about message order_id r s'

  -- `if s.publisher != nil { … }`
  abbrev pub publish :
      Option (EventPublisher p S)
      → String
      → Order p
      → (EventPublisher p S → Action S ⊤)
      → Action S ⊤
  publish none message order send = pure tt
  publish (some publisher) message order send =
      warn_on_error message (uuid_string order.id) (send publisher)

  -- The loop of `CreateOrder` and of `UpdateOrder` over the items that they are given.
  unfoldable pub new_items : List (OrderItem p) → Action S (List (OrderItem p))
  new_items [] = pure []
  new_items (item ∷ items) = do
    check (Item.validate item)
    id ← run rt.new_uuid
    rest ← new_items items
    pure (new_item id item ∷ rest)

  -- `if len(dto.Items) > 0 { … }`
  unfoldable pub replace_items : List (OrderItem p) → Order p → Action S (Order p)
  replace_items [] order = pure order
  replace_items (item ∷ more) order = do
    items ← new_items (item ∷ more)
    let replaced : Order p = record order { items = items }
    pure (record replaced { total = calculate_total replaced })

  -- The cache's answer, where a failure is warned of and counts as a miss.
  abbrev pub miss_on_error : String → Result (Option (Order p)) → S → Result (Option (Order p)) × S
  miss_on_error id (ok cached) s = (ok cached, s)
  miss_on_error id (err e) s = (ok none, rt.warn "cache get failed" id e s)

  abbrev pub cache_lookup : Option (OrderCache p S) → String → Action S (Option (Order p))
  cache_lookup none id s = (ok none, s)
  cache_lookup (some cache) id s = let (r, s') = cache.get id s in miss_on_error id r s'

  abbrev pub cache_store : Option (OrderCache p S) → String → Order p → Action S ⊤
  cache_store none id order = pure tt
  cache_store (some cache) id order =
      warn_on_error "cache set failed" id (cache.set order order_cache_ttl)

  abbrev pub cache_invalidate : Option (OrderCache p S) → String → Action S ⊤
  cache_invalidate none id = pure tt
  cache_invalidate (some cache) id = warn_on_error "cache delete failed" id (cache.delete id)
