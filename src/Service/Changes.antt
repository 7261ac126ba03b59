-- ===== src/Service/Changes.antt =====
-- What `UpdateOrderStatus` and `UpdateOrder` do with an order that the repository finds.
use mathlib.Core.List.{foldl}
use go_ordersvc.Prelude.{
  ⊤, String, false, Option, none, some, List, [], ◌∷◌, ◌≡◌, refl, inl, inr, arith, ap, Bool-cases,
  Matches, is_empty,
}
use go_ordersvc.Platform.{Platform}
use go_ordersvc.Effect.{Result, ok, err, pure, ◌>>◌, continue}
use go_ordersvc.Domain.Errors.{DomainError, domain, invalid_transition}
use go_ordersvc.Domain.Status.{OrderStatus, can_transition_to}
use go_ordersvc.Domain.Lifecycle.{◌⟶◌, can_transition_to_iff}
use go_ordersvc.Domain.Item.{OrderItem}
use go_ordersvc.Domain.Order.{Order, add_subtotal, validate_items, calculate_total}
use go_ordersvc.Cache.Interface.{OrderCache}
use go_ordersvc.Service.Interface.{UpdateOrderDto, Runtime}
use go_ordersvc.Service.Steps.{replace_status, replace_items, cache_invalidate}
use go_ordersvc.Service.Impl.{OrderServiceImpl, update_order, update_order_status}
use go_ordersvc.Service.Creation.{IsMadeFrom, new_items_valid, new_items_refused}
use go_ordersvc.Service.Publishing.{published-result, warn_about-ok}

module _ {p : Platform} {S : Type 0} (rt : Runtime p S) where
  -- Forgetting an order in the cache never fails the operation.
  cache_invalidate-ok :
      (cache : Option (OrderCache p S)) (id : String) (s : S)
      → (s' : S) × (cache_invalidate rt cache id s ≡ (ok tt, s'))
  cache_invalidate-ok none id s = (s, refl)
  cache_invalidate-ok (some cache) id s =
      warn_about-ok rt "cache delete failed" id (cache.delete id s).0 (cache.delete id s).1

  -- An order that was found, and a status that the state machine does not allow it: the operation is
  -- refused with ErrInvalidTransition, and nothing was done but the read.
  pub update_order_status_refused :
      (svc : OrderServiceImpl p S) (id : String) (status : OrderStatus) (order : Order p) (s s₁ : S)
      → svc.repo.find_by_id id s ≡ (ok (some order), s₁)
      → (order.status ⟶ status → ⊥)
      → update_order_status rt svc id status s ≡ (err (domain invalid_transition), s₁)
  unfolding update_order_status replace_status
  update_order_status_refused svc id status order s s₁ found never =
      elim (Bool-cases (can_transition_to order.status status)) [
        | inl allowed ↦ absurd (never ((can_transition_to_iff order.status status).0 allowed))
        | inr refused ↦ rw (found, refused) refl
      ]

  -- An order that was found, and a step of the state machine: the repository is given the same order
  -- with the new status and the present time, and the operation ends as that `Update` ends, whatever
  -- becomes of the event and of the cache.
  pub update_order_status_allowed :
      (svc : OrderServiceImpl p S) (id : String) (status : OrderStatus) (order : Order p) (s s₁ : S)
      → svc.repo.find_by_id id s ≡ (ok (some order), s₁)
      → order.status ⟶ status
      → (update_order_status rt svc id status s).0
        ≡ (svc.repo.update
            (record order { status = status; updated_at = (rt.now s₁).0 })
            (rt.now s₁).1).0
  unfolding update_order_status replace_status
  update_order_status_allowed svc id status order s s₁ found step =
      let moved : Order p = record order { status = status; updated_at = (rt.now s₁).0 } in
      rw (found, (can_transition_to_iff order.status status).1 step)
        (published-result rt (svc.repo.update moved) svc.publisher
          "failed to publish order.status_changed event"
          (λ saved publisher. publisher.publish_order_status_changed saved order.status status)
          (λ saved. cache_invalidate rt svc.cache id >> pure saved) (rt.now s₁).1
          (λ o s'.
            let (s'', e) = cache_invalidate-ok svc.cache id s' in
            (s'', ap (λ (x : Result ⊤ × S). continue (λ (_ : ⊤). pure o) x.0 x.1) e)))

  replace_items_refused :
      (items : List (OrderItem p)) (order : Order p) (s : S) (e : DomainError)
      → validate_items items ≡ some e
      → (s' : S) × (replace_items rt items order s ≡ (err (domain e), s'))
  unfolding replace_items
  replace_items_refused [] order s e bad = ground arith
  replace_items_refused (item ∷ more) order s e bad =
      let (s', ran) = new_items_refused rt (item ∷ more) s e bad in (s', rw ran refl)

  replace_items_valid :
      (items : List (OrderItem p)) (order : Order p) (s : S)
      → is_empty items ≡ false
      → validate_items items ≡ none
      → (made : List (OrderItem p)) × (s' : S) × Matches IsMadeFrom items made
        × (replace_items rt items order s ≡ (
          ok (record order { items = made; total = foldl add_subtotal p.float_zero made }),
          s',
        ))
  unfolding replace_items calculate_total
  replace_items_valid [] order s filled valid = ground arith
  replace_items_valid (item ∷ more) order s filled valid =
      let (made, s', ran, all, _, _) = new_items_valid rt (item ∷ more) s valid in
      (made, s', all, rw ran refl)

  -- New items for an order that was found, one of which is invalid: the operation is refused with the
  -- error of the first invalid item.
  pub update_order_refused :
      (svc : OrderServiceImpl p S) (id : String) (dto : UpdateOrderDto p) (order : Order p)
      (s s₁ : S) (e : DomainError)
      → svc.repo.find_by_id id s ≡ (ok (some order), s₁)
      → validate_items dto.items ≡ some e
      → (update_order rt svc id dto s).0 ≡ err (domain e)
  unfolding update_order
  update_order_refused svc id dto order s s₁ e found bad =
      let (s', ran) = replace_items_refused dto.items order s₁ e bad in rw (found, ran) refl

  -- Valid new items, and no status, for an order that was found: the repository is given the same
  -- order with items made from them, their total and the present time, and the operation ends as that
  -- `Update` ends, whatever becomes of the event.
  pub update_order_valid :
      (svc : OrderServiceImpl p S) (id : String) (dto : UpdateOrderDto p) (order : Order p)
      (s s₁ : S)
      → svc.repo.find_by_id id s ≡ (ok (some order), s₁)
      → dto.status ≡ none
      → is_empty dto.items ≡ false
      → validate_items dto.items ≡ none
      → (items : List (OrderItem p)) × (s₂ : S) × Matches IsMadeFrom dto.items items
        × ((update_order rt svc id dto s).0
            ≡ (svc.repo.update
                (record order {
                  items = items;
                  total = foldl add_subtotal p.float_zero items;
                  updated_at = (rt.now s₂).0;
                })
                (rt.now s₂).1).0)
  unfolding update_order replace_status
  update_order_valid svc id dto order s s₁ found unmoved filled valid =
      let (items, s₂, all, ran) = replace_items_valid dto.items order s₁ filled valid in
      let changed : Order p = record order {
        items = items;
        total = foldl add_subtotal p.float_zero items;
        updated_at = (rt.now s₂).0;
      } in
      (
        items,
        s₂,
        all,
        rw (found, ran, unmoved)
            (published-result rt (svc.repo.update changed) svc.publisher
              "failed to publish order.updated event"
              (λ saved publisher. publisher.publish_order_updated saved) (λ saved. pure saved)
              (rt.now s₂).1 (λ o s'. (s', refl))),
      )
