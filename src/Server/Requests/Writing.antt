-- ===== src/Server/Requests/Writing.antt =====
-- The requests that read an order, change it and write it back.
use mathlib.Core.List.{Memᴰ}
use go_ordersvc.Prelude.{
  Bool, true, false, if◌then◌else◌, String, Option, none, some, List, [], ◌∷◌, ◌≡◌, refl, sym, inl,
  inr, subst,
}
use go_ordersvc.Platform.{Platform}
use go_ordersvc.Effect.{
  ok-injective, err-neq-ok, ok, Action, ◌>>=◌, ◌>>◌, >>=-eq-ok, pure, run, throw,
}
use go_ordersvc.Domain.Status.{OrderStatus, can_transition_to}
use go_ordersvc.Domain.Item.{OrderItem}
use go_ordersvc.Domain.Order.{Order}
use go_ordersvc.Repository.Postgres.{update}
use go_ordersvc.Domain.Errors.{invalid_transition}
use go_ordersvc.Repository.Listing.{new_order_repository}
use go_ordersvc.Repository.Traffic.{writes, stay, step, IsAllowed}
use go_ordersvc.Messaging.Kafka.{new_publisher, noop_publisher}
use go_ordersvc.Service.Interface.{UpdateOrderDto}
use go_ordersvc.Service.Steps.{
  new_items, replace_items, replace_status, find_existing, publish, cache_invalidate,
}
use go_ordersvc.Service.Impl.{update_order, update_order_status}
use go_ordersvc.Server.Untouched.{Leaves, >>=-Leaves, replace_items-Leaves, replace_status-Leaves}
use go_ordersvc.Server.Requests.Silent.{database_of, publish-Leaves, cache_invalidate-Leaves}
use go_ordersvc.Server.Requests.Runs.{
  Runs, Any, traffic_of, >>=-Runs, still-Runs, find_existing-Runs,
}
use go_ordersvc.Server.{World, runtime, repository, order_cache, publisher_for, dependencies}

module _ {p : Platform} where
  -- An order with the id, the version and the status of one that was read.
  abbrev IsRead : Order p → List (Order p) → Type 0
  IsRead changed held =
      (o : Order p) × Memᴰ o held
      × (changed.id ≡ o.id)
      × (changed.version ≡ o.version)
      × (changed.status ≡ o.status)

  -- The same with a status that is allowed after the one that was read.
  abbrev IsWritable : Order p → List (Order p) → Type 0
  IsWritable changed held =
      (o : Order p) × Memᴰ o held
      × (changed.id ≡ o.id)
      × (changed.version ≡ o.version)
      × IsAllowed o.status changed.status

  update-Runs :
      (changed : Order p) (w : World p) (held : List (Order p))
      → IsWritable changed held
      → Runs w held Any ((repository p).update changed w)
  unfolding repository new_order_repository
  update-Runs changed w held (o, read, same_id, same_version, allowed) = (
    held,
    step (traffic_of w held)
        (traffic_of (record w { database = (update changed w.database).1 }) held) stay
        (writes o changed read same_id same_version allowed),
    λ a h. tt,
  )

  replace_items-IsRead :
      (items : List (OrderItem p)) (order changed : Order p) (w : World p) (held : List (Order p))
      → IsRead order held
      → (replace_items (runtime p) items order w).0 ≡ ok changed
      → IsRead changed held
  unfolding replace_items
  replace_items-IsRead [] order changed w held read h =
      subst (λ (o : Order p). IsRead o held) (ok-injective h) read
  replace_items-IsRead (item ∷ more) order changed w held (o, mem, same_id, same_version, same) h =
      let (_, _, made, _) = >>=-eq-ok (new_items (runtime p) (item ∷ more)) _ w h in
      subst (λ (o : Order p). IsRead o held) (ok-injective made)
        (o, mem, same_id, same_version, same)

  -- A change of status that went through was allowed.
  replace_status-eq-ok :
      (status : OrderStatus) (order changed : Order p) (w : World p)
      → (replace_status (some status) order w).0 ≡ ok changed
      → (can_transition_to order.status status ≡ true)
        × (record order { status = status } ≡ changed)
  unfolding replace_status
  replace_status-eq-ok status order changed w h = go (can_transition_to order.status status) h
    where
      go :
          (allowed : Bool)
          → ((if allowed then pure (record order { status = status }) else throw invalid_transition)
              w).0
            ≡ ok changed
          → (allowed ≡ true) × (record order { status = status } ≡ changed)
      go true e = (refl, ok-injective e)
      go false e = absurd (err-neq-ok e)

  replace_status-IsWritable :
      (status : Option OrderStatus) (order changed : Order p) (w : World p) (held : List (Order p))
      → IsRead order held
      → (replace_status status order w).0 ≡ ok changed
      → IsWritable changed held
  unfolding replace_status
  replace_status-IsWritable none order changed w held (o, mem, same_id, same_version, same) h =
      subst (λ (o : Order p). IsWritable o held) (ok-injective h)
        (o, mem, same_id, same_version, inl same)
  replace_status-IsWritable (some status) order changed w held (o, mem, same_id, same_version, same)
        h =
      let (allowed, made) = replace_status-eq-ok status order changed w h in
      subst (λ (x : Order p). IsWritable x held) made
        (o, mem, same_id, same_version, inr (rw (sym same) allowed))

  -- The end of a change: the order is stamped and written, and then the database is left alone.
  written-Runs :
      (order : Order p) (rest : Order p → Action (World p) (Order p))
      → ((saved : Order p) → Leaves database_of (rest saved))
      → (w : World p) (held : List (Order p)) → IsWritable order held
      → Runs w held Any (
          (run (runtime p).now >>= λ t.
          (repository p).update (record order { updated_at = t }) >>= rest)
            w)
  written-Runs order rest leaves w held writable =
      let (t, w') = (runtime p).now w in
      let changed : Order p = record order { updated_at = t } in
      >>=-Runs w' held ((repository p).update changed) rest (update-Runs changed w' held writable)
        (λ saved w₁ held₁ _. still-Runs w₁ held₁ (rest saved w₁) (leaves saved w₁) (λ a h. tt))

  abbrev pub written : (Order p → Action (World p) (Order p)) → Order p → Action (World p) (Order p)
  written rest order =
      run (runtime p).now >>= λ t. (repository p).update (record order { updated_at = t }) >>= rest

  -- The change of status and what follows it.
  abbrev pub restated :
      Option OrderStatus
      → (Order p → Action (World p) (Order p))
      → Order p
      → Action (World p) (Order p)
  restated status rest order = replace_status status order >>= written rest

  restated-Runs :
      (status : Option OrderStatus) (order : Order p) (rest : Order p → Action (World p) (Order p))
      → ((saved : Order p) → Leaves database_of (rest saved))
      → (w : World p) (held : List (Order p)) → IsRead order held
      → Runs w held Any (restated status rest order w)
  restated-Runs status order rest leaves w held read =
      >>=-Runs {P = IsWritable} {Q = Any} w held (replace_status status order) (written rest)
        (still-Runs w held (replace_status status order w)
          (replace_status-Leaves database_of status order w)
          (λ changed h. replace_status-IsWritable status order changed w held read h))
        (λ changed w' held' writable. written-Runs changed rest leaves w' held' writable)

  abbrev updated_rest : List String → Order p → Action (World p) (Order p)
  updated_rest brokers saved =
      publish (runtime p) (some (publisher_for p brokers)) "failed to publish order.updated event"
        saved (λ publisher. publisher.publish_order_updated saved)
      >> pure saved

  updated_rest-Leaves :
      (brokers : List String) (saved : Order p) → Leaves database_of (updated_rest brokers saved)
  unfolding new_publisher noop_publisher
  updated_rest-Leaves brokers saved =
      >>=-Leaves database_of
        (publish (runtime p) (some (publisher_for p brokers))
          "failed to publish order.updated event" saved
          (λ publisher. publisher.publish_order_updated saved))
        (λ _. pure saved)
        (publish-Leaves brokers "failed to publish order.updated event" saved
          (λ publisher. publisher.publish_order_updated saved) (λ w. refl) (λ w. refl))
        (λ _ w. refl)

  pub update_order-Runs :
      (brokers : List String) (id : String) (dto : UpdateOrderDto p) (w : World p)
      (held : List (Order p))
      → Runs w held Any (update_order (runtime p) (dependencies p brokers) id dto w)
  unfolding update_order dependencies
  update_order-Runs brokers id dto w held =
      let rest = updated_rest brokers in
      let change : Order p → Action (World p) (Order p) =
        λ order. replace_items (runtime p) dto.items order >>= restated dto.status rest in
      >>=-Runs {P = Memᴰ} {Q = Any} w held (find_existing (repository p) id) change
        (find_existing-Runs id w held)
        (λ order w' held' read.
          >>=-Runs {P = IsRead} {Q = Any} w' held' (replace_items (runtime p) dto.items order)
            (restated dto.status rest)
            (still-Runs w' held' (replace_items (runtime p) dto.items order w')
              (replace_items-Leaves database_of (λ x n. refl) dto.items order w')
              (λ changed h.
                replace_items-IsRead dto.items order changed w' held'
                  (order, read, refl, refl, refl) h))
            (λ changed w'' held'' is_read.
              restated-Runs dto.status changed rest (updated_rest-Leaves brokers) w'' held''
                is_read))

  abbrev pub moved_rest :
      List String → String → OrderStatus → OrderStatus → Order p → Action (World p) (Order p)
  moved_rest brokers id old new saved =
      publish (runtime p) (some (publisher_for p brokers))
        "failed to publish order.status_changed event" saved
        (λ publisher. publisher.publish_order_status_changed saved old new)
      >> (cache_invalidate (runtime p) (some (order_cache p)) id >> pure saved)

  moved_rest-Leaves :
      (brokers : List String) (id : String) (old new : OrderStatus) (saved : Order p)
      → Leaves database_of (moved_rest brokers id old new saved)
  unfolding new_publisher noop_publisher
  moved_rest-Leaves brokers id old new saved =
      >>=-Leaves database_of
        (publish (runtime p) (some (publisher_for p brokers))
          "failed to publish order.status_changed event" saved
          (λ publisher. publisher.publish_order_status_changed saved old new))
        (λ _. cache_invalidate (runtime p) (some (order_cache p)) id >> pure saved)
        (publish-Leaves brokers "failed to publish order.status_changed event" saved
          (λ publisher. publisher.publish_order_status_changed saved old new) (λ w. refl)
          (λ w. refl))
        (λ _.
          >>=-Leaves database_of (cache_invalidate (runtime p) (some (order_cache p)) id)
            (λ _. pure saved) (cache_invalidate-Leaves id) (λ _ w. refl))

  pub update_order_status-Runs :
      (brokers : List String) (id : String) (status : OrderStatus) (w : World p)
      (held : List (Order p))
      → Runs w held Any (update_order_status (runtime p) (dependencies p brokers) id status w)
  unfolding update_order_status dependencies
  update_order_status-Runs brokers id status w held =
      >>=-Runs {P = Memᴰ} {Q = Any} w held (find_existing (repository p) id)
        (λ order. restated (some status) (moved_rest brokers id order.status status) order)
        (find_existing-Runs id w held)
        (λ order w' held' read.
          restated-Runs (some status) order (moved_rest brokers id order.status status)
            (moved_rest-Leaves brokers id order.status status) w' held'
            (order, read, refl, refl, refl))
