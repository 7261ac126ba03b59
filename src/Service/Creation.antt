-- ===== src/Service/Creation.antt =====
-- What `CreateOrder` makes of a request, valid or not.
use mathlib.Core.List.{foldl}
use go_ordersvc.Prelude.{
  ℕ, false, Option, none, some, List, [], ◌∷◌, ◌≡◌, refl, ◌∙◌, ap, inl, inr, arith, Option-cases,
  Bool-cases, is_empty, Matches, str_eq, if◌then◌else◌,
}
use go_ordersvc.Prelude.Int.{pos}
use go_ordersvc.Platform.{Platform}
use go_ordersvc.Effect.{Result, ok, err, Action, ◌>>=◌, ◌>>◌, pure}
use go_ordersvc.Domain.Errors.{DomainError, domain, invalid_customer_id, no_items}
use go_ordersvc.Domain.Status.{pending}
use go_ordersvc.Domain.Item
use go_ordersvc.Domain.Item.{OrderItem, calculate_subtotal}
use go_ordersvc.Domain.Order
use go_ordersvc.Domain.Order.{Order, add_subtotal, validate_items, calculate_total}
use go_ordersvc.Service.Interface.{CreateOrderDto, Runtime}
use go_ordersvc.Service.Steps.{new_item, new_items, publish}
use go_ordersvc.Service.Publishing.{published-result}
use go_ordersvc.Service.Impl.{OrderServiceImpl, create_order}

module _ {p : Platform} where
  -- An item that the service stores for an item of a request.
  abbrev pub IsMadeFrom : OrderItem p → OrderItem p → Type 0
  IsMadeFrom item made =
      (made.product_id ≡ item.product_id)
      × (made.name ≡ item.name)
      × (made.quantity ≡ item.quantity)
      × (made.price ≡ item.price)
      × (made.subtotal ≡ p.float_mul (p.of_int item.quantity) item.price)

  -- The order that the service stores for a request.
  abbrev pub IsDraftOf : CreateOrderDto p → Order p → Type 0
  IsDraftOf dto order =
      (order.customer_id ≡ dto.customer_id)
      × Matches IsMadeFrom dto.items order.items
      × (order.status ≡ pending)
      × (order.version ≡ pos 0)
      × (order.deleted_at ≡ none)
      × (order.total ≡ foldl add_subtotal p.float_zero order.items)

  validate-new_item :
      (id : p.UUID) (item : OrderItem p) → Item.validate (new_item id item) ≡ Item.validate item
  unfolding Item.validate
  validate-new_item id item = refl

  validate_items-cons :
      (item : OrderItem p) (items : List (OrderItem p))
      → Item.validate item ≡ none
      → validate_items items ≡ none
      → validate_items (item ∷ items) ≡ none
  validate_items-cons item items good later = rw (good, validate_items) later

  new_item-IsMadeFrom : (id : p.UUID) (item : OrderItem p) → IsMadeFrom item (new_item id item)
  unfolding calculate_subtotal
  new_item-IsMadeFrom id item = (refl, refl, refl, refl, refl)

module _ {p : Platform} {S : Type 0} (rt : Runtime p S) where
  -- A list of valid items is made into items that are valid too.
  pub new_items_valid :
      (items : List (OrderItem p)) (s : S)
      → validate_items items ≡ none
      → (made : List (OrderItem p)) × (s' : S) × (new_items rt items s ≡ (ok made, s'))
        × Matches IsMadeFrom items made
        × (validate_items made ≡ none)
        × (is_empty made ≡ is_empty items)
  unfolding new_items
  new_items_valid [] s h = ([], s, refl, tt, refl, refl)
  new_items_valid (item ∷ items) s h = elim (Option-cases (Item.validate item)) [
    | inr (e, bad) ↦ ground arith
    | inl good ↦
        let later : validate_items items ≡ none = ground arith in
        let (id, s₁) = rt.new_uuid s in
        let (made, s', ran, all, valid, _) = new_items_valid items s₁ later in
        (
          new_item id item ∷ made,
          s',
          rw (good, ran) refl,
          (new_item-IsMadeFrom id item, all),
          validate_items-cons (new_item id item) made (validate-new_item id item ∙ good) valid,
          refl,
        )
  ]

  -- The first invalid item ends the loop with its error.
  pub new_items_refused :
      (items : List (OrderItem p)) (s : S) (e : DomainError)
      → validate_items items ≡ some e
      → (s' : S) × (new_items rt items s ≡ (err (domain e), s'))
  unfolding new_items
  new_items_refused [] s e h = ground arith
  new_items_refused (item ∷ items) s e h = elim (Option-cases (Item.validate item)) [
    | inr (e', bad) ↦ let same : e' ≡ e = ground arith in (s, rw (bad, same) refl)
    | inl good ↦
        let later : validate_items items ≡ some e = ground arith in
        let (s', ran) = new_items_refused items (rt.new_uuid s).1 e later in
        (s', rw (good, ran) refl)
  ]

  -- The order that `CreateOrder` builds.
  abbrev draft : CreateOrderDto p → List (OrderItem p) → p.UUID → ℕ → ℕ → Order p
  draft dto items id created_at updated_at =
      let untotalled : Order p = record {
        id = id;
        customer_id = dto.customer_id;
        items = items;
        status = pending;
        total = p.float_zero;
        version = pos 0;
        created_at = created_at;
        updated_at = updated_at;
        deleted_at = none;
      } in
      record untotalled { total = calculate_total untotalled }

  draft-IsDraftOf :
      (dto : CreateOrderDto p) (items : List (OrderItem p)) (id : p.UUID) (t₁ t₂ : ℕ)
      → Matches IsMadeFrom dto.items items
      → IsDraftOf dto (draft dto items id t₁ t₂)
  unfolding calculate_total
  draft-IsDraftOf dto items id t₁ t₂ all = (refl, all, refl, refl, refl, refl)

  -- What `validate` says of an order with a request's customer and items.
  abbrev pub dto_error : CreateOrderDto p → Option DomainError
  dto_error dto =
      if str_eq dto.customer_id ""
      then some invalid_customer_id
      else if is_empty dto.items
      then some no_items
      else validate_items dto.items

  dto_error-none :
      (dto : CreateOrderDto p)
      → dto_error dto ≡ none
      → (str_eq dto.customer_id "" ≡ false)
        × (is_empty dto.items ≡ false)
        × (validate_items dto.items ≡ none)
  dto_error-none dto h = (ground arith, ground arith, ground arith)

  draft-valid :
      (dto : CreateOrderDto p) (items : List (OrderItem p)) (id : p.UUID) (t₁ t₂ : ℕ)
      → str_eq dto.customer_id "" ≡ false
      → is_empty items ≡ false
      → validate_items items ≡ none
      → Order.validate (draft dto items id t₁ t₂) ≡ none
  unfolding Order.validate
  draft-valid dto items id t₁ t₂ named filled valid = rw (named, filled) valid

  -- The end of `CreateOrder`.
  abbrev pub persisted : OrderServiceImpl p S → Order p → Action S (Order p)
  persisted svc order = svc.repo.create order >>= λ saved.
      publish rt svc.publisher "failed to publish order.created event" saved
        (λ publisher. publisher.publish_order_created saved)
      >> pure saved

  pub create_order-persisted :
      (svc : OrderServiceImpl p S) (dto : CreateOrderDto p) (s : S)
      → dto_error dto ≡ none
      → (order : Order p) × (s' : S) × IsDraftOf dto order
        × (Order.validate order ≡ none)
        × (create_order rt svc dto s ≡ persisted svc order s')
  unfolding create_order
  create_order-persisted svc dto s h =
      let (named, filled, valid) = dto_error-none dto h in
      let (items, s₁, ran, all, checked, same) = new_items_valid dto.items s valid in
      let (id, s₂) = rt.new_uuid s₁ in
      let (t₁, s₃) = rt.now s₂ in
      let (t₂, s₄) = rt.now s₃ in
      let good = draft-valid dto items id t₁ t₂ named (same ∙ filled) checked in
      (
        draft dto items id t₁ t₂,
        s₄,
        draft-IsDraftOf dto items id t₁ t₂ all,
        good,
        rw (named, filled, ran, good) refl,
      )

  -- A valid request: the repository is given an order that was made from it, pending, at version 0
  -- and with the total of its items, and `CreateOrder` ends as that `Create` ends, whatever becomes
  -- of the event.
  pub create_order_valid :
      (svc : OrderServiceImpl p S) (dto : CreateOrderDto p) (s : S)
      → dto_error dto ≡ none
      → (order : Order p) × (s' : S) × IsDraftOf dto order
        × (Order.validate order ≡ none)
        × ((create_order rt svc dto s).0 ≡ (svc.repo.create order s').0)
  create_order_valid svc dto s h =
      let (order, s', made, good, ran) = create_order-persisted svc dto s h in
      (
        order,
        s',
        made,
        good,
        ap (λ (x : Result (Order p) × S). x.0) ran
            ∙ published-result rt (svc.repo.create order) svc.publisher
                "failed to publish order.created event"
                (λ saved publisher. publisher.publish_order_created saved) (λ saved. pure saved) s'
                (λ o s₁. (s₁, refl)),
      )

  -- An invalid request is refused with the error that `validate` has for an order with its customer
  -- and items, before the repository, the cache or the publisher is used: with other ones the call
  -- would have done the same.
  pub create_order_refused :
      (svc other : OrderServiceImpl p S) (dto : CreateOrderDto p) (s : S) (e : DomainError)
      → dto_error dto ≡ some e
      → ((create_order rt svc dto s).0 ≡ err (domain e))
        × (create_order rt svc dto s ≡ create_order rt other dto s)
  unfolding create_order
  create_order_refused svc other dto s e h = elim (Bool-cases (str_eq dto.customer_id "")) [
    | inl anonymous ↦
        let same : invalid_customer_id ≡ e = ground arith in
        (rw (anonymous, same) refl, rw anonymous refl)
    | inr named ↦ elim (Bool-cases (is_empty dto.items)) [
      | inl empty ↦
          let same : no_items ≡ e = ground arith in
          (rw (named, empty, same) refl, rw (named, empty) refl)
      | inr filled ↦
          let bad : validate_items dto.items ≡ some e = ground arith in
          let (s', ran) = new_items_refused dto.items s e bad in
          (rw (named, filled, ran) refl, rw (named, filled, ran) refl)
    ]
  ]
