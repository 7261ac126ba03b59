-- ===== src/Server/Untouched.antt =====
-- Actions of the service that leave a part of the world as it is: the database, or the cache.
use go_ordersvc.Prelude.{ℕ, Option, none, some, List, [], ◌∷◌, ◌≡◌, refl, ◌∙◌, inl, inr, Bool-cases}
use go_ordersvc.Platform.{Platform}
use go_ordersvc.Effect.{Result, ok, err, Action, ◌>>=◌, pure, continue, run, check}
use go_ordersvc.Domain.Errors.{DomainError}
use go_ordersvc.Domain.Status.{OrderStatus, can_transition_to}
use go_ordersvc.Domain.Item
use go_ordersvc.Domain.Item.{OrderItem}
use go_ordersvc.Domain.Order.{Order, calculate_total}
use go_ordersvc.Service.Steps.{new_item, new_items, replace_items, replace_status}
use go_ordersvc.Server.{World, runtime}

module _ {p : Platform} {X : Type 0} (view : World p → X) where
  abbrev pub Leaves : {A : Type 0} → Action (World p) A → Type 0
  Leaves m = (w : World p) → view (m w).1 ≡ view w

  pub >>=-Leaves :
      {A B : Type 0} (m : Action (World p) A) (f : A → Action (World p) B)
      → Leaves m
      → ((a : A) → Leaves (f a))
      → Leaves (m >>= f)
  >>=-Leaves m f hm hf w = go (m w).0 (m w).1 (hm w)
    where
      go : (r : Result _) (w' : World p) → view w' ≡ view w → view (continue f r w').1 ≡ view w
      go (ok a) w' h = hf a w' ∙ h
      go (err e) w' h = h

  pub check-Leaves : (e : Option DomainError) → Leaves (check e)
  check-Leaves none w = refl
  check-Leaves (some e) w = refl

  pub replace_status-Leaves :
      (status : Option OrderStatus) (order : Order p) → Leaves (replace_status status order)
  unfolding replace_status
  replace_status-Leaves none order w = refl
  replace_status-Leaves (some status) order w =
      elim (Bool-cases (can_transition_to order.status status)) [
        | inl allowed ↦ rw allowed refl
        | inr refused ↦ rw refused refl
      ]

-- Where the part has nothing of the UUIDs that are drawn.
module _ {p : Platform} {X : Type 0} (view : World p → X)
    (drawing : (w : World p) (n : ℕ) → view (record w { drawn = n }) ≡ view w) where
  -- The rest of a round of the loop over the items.
  abbrev collected :
      OrderItem p → List (OrderItem p) → p.UUID → Action (World p) (List (OrderItem p))
  collected item items id = new_items (runtime p) items >>= λ rest. pure (new_item id item ∷ rest)

  abbrev made : OrderItem p → List (OrderItem p) → Action (World p) (List (OrderItem p))
  made item items = run (runtime p).new_uuid >>= collected item items

  pub new_items-Leaves : (items : List (OrderItem p)) → Leaves view (new_items (runtime p) items)
  unfolding new_items
  new_items-Leaves [] = λ w. refl
  new_items-Leaves (item ∷ items) =
      >>=-Leaves view (check (Item.validate item)) (λ _. made item items)
        (check-Leaves view (Item.validate item))
        (λ _.
          >>=-Leaves view (run (runtime p).new_uuid) (collected item items) (λ w. drawing w _)
            (λ id.
              >>=-Leaves view (new_items (runtime p) items) (λ rest. pure (new_item id item ∷ rest))
                (new_items-Leaves items) (λ rest w. refl)))

  abbrev retotalled : Order p → List (OrderItem p) → Order p
  retotalled order items =
      let replaced : Order p = record order { items = items } in
      record replaced { total = calculate_total replaced }

  pub replace_items-Leaves :
      (items : List (OrderItem p)) (order : Order p)
      → Leaves view (replace_items (runtime p) items order)
  unfolding replace_items
  replace_items-Leaves [] order = λ w. refl
  replace_items-Leaves (item ∷ more) order =
      >>=-Leaves view (new_items (runtime p) (item ∷ more)) (λ items. pure (retotalled order items))
        (new_items-Leaves (item ∷ more)) (λ items w. refl)
