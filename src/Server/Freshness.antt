-- ===== src/Server/Freshness.antt =====
-- A read after a change of status goes to the database: `UpdateOrderStatus` removes the order from
-- the cache.
use go_ordersvc.Prelude.{
  ⊤, String, none, some, List, [], ◌∷◌, ◌≡◌, ◌≢◌, refl, ◌∙◌, ap, sym, inl, inr, Bool-cases, str_eq,
}
use go_ordersvc.Platform.{Platform}
use go_ordersvc.Effect.{Result, ok, err, Action, ◌>>=◌, ◌>>◌, continue, pure, run, err-neq-ok}
use go_ordersvc.Outside.{clear, condition}
use go_ordersvc.Domain.Status.{OrderStatus}
use go_ordersvc.Domain.Order.{Order}
use go_ordersvc.Repository.Listing.{new_order_repository}
use go_ordersvc.Cache.Redis
use go_ordersvc.Cache.Redis.{RedisServer, new_order_cache}
use go_ordersvc.Cache.Laws.{get-delete, condition_after}
use go_ordersvc.Service.Steps.{find_existing, replace_status, publish, warn_about, cache_invalidate}
use go_ordersvc.Service.Impl.{get_order_by_id, update_order_status}
use go_ordersvc.Service.Reading.{get_order_by_id-found}
use go_ordersvc.Server.Untouched.{Leaves, replace_status-Leaves}
use go_ordersvc.Messaging.Kafka.{new_publisher, noop_publisher}
use go_ordersvc.Server.Requests.Writing.{written, restated, moved_rest}
use go_ordersvc.Server.Created.{IsMissed-database}
use go_ordersvc.Server.Staleness.{
  cache_of, IsUncached, find_existing-IsUncached, warn_about-IsUncached,
}
use go_ordersvc.Server.{World, runtime, repository, order_cache, publisher_for, dependencies}

hit-neq-miss : {A : Type 0} {a : A} → ok none ≢ ok (some a)
hit-neq-miss h = cc

module _ {p : Platform} where
  -- Where it succeeds, the action has removed an order from the cache, and nothing else.
  abbrev Removes : {A : Type 0} → String → Action (World p) A → Type 0
  Removes {A} id m =
      (w w' : World p) (a : A) → m w ≡ (ok a, w') → w'.redis ≡ (Redis.delete id w.redis).1

  >>=-Removes :
      {A B : Type 0} (id : String) (m : Action (World p) A) (f : A → Action (World p) B)
      → Leaves cache_of m
      → ((a : A) → Removes id (f a))
      → Removes id (m >>= f)
  >>=-Removes {A} {B} id m f same removes w w' b h = go (m w).0 (m w).1 (same w) h
    where
      go :
          (r : Result A) (w₁ : World p)
          → w₁.redis ≡ w.redis
          → continue f r w₁ ≡ (ok b, w')
          → w'.redis ≡ (Redis.delete id w.redis).1
      go (ok a) w₁ same₁ e = removes a w₁ w' b e ∙ ap (λ c. (Redis.delete id c).1) same₁
      go (err x) w₁ same₁ e = absurd (err-neq-ok (ap (λ (y : Result B × World p). y.0) e))

  invalidated-Removes :
      (id : String) (saved : Order p)
      → Removes id (cache_invalidate (runtime p) (some (order_cache p)) id >> pure saved)
  unfolding order_cache new_order_cache
  invalidated-Removes id saved w w' a h =
      go ((order_cache p).delete id w).0 ((order_cache p).delete id w).1 h
    where
      go :
          (r : Result ⊤) (x : World p)
          → continue
              (λ _. pure saved)
              (warn_about (runtime p) "cache delete failed" id r x).0
              (warn_about (runtime p) "cache delete failed" id r x).1
            ≡ (ok a, w')
          → w'.redis ≡ x.redis
      go (ok _) x e = ap (λ (y : Result (Order p) × World p). y.1.redis) (sym e)
      go (err _) x e = ap (λ (y : Result (Order p) × World p). y.1.redis) (sym e)

  abbrev moved_event : List String → OrderStatus → OrderStatus → Order p → Action (World p) ⊤
  moved_event brokers old new saved =
      publish (runtime p) (some (publisher_for p brokers))
        "failed to publish order.status_changed event" saved
        (λ publisher. publisher.publish_order_status_changed saved old new)

  -- The event leaves the cache alone.
  moved_event-IsUncached :
      (brokers : List String) (old new : OrderStatus) (saved : Order p)
      → IsUncached (moved_event brokers old new saved)
  unfolding publisher_for new_publisher noop_publisher
  moved_event-IsUncached brokers old new saved w =
      warn_about-IsUncached "failed to publish order.status_changed event" (p.uuid_string saved.id)
        ((publisher_for p brokers).publish_order_status_changed saved old new w).0
        ((publisher_for p brokers).publish_order_status_changed saved old new w).1
      ∙ sent brokers
    where
      sent :
          (names : List String)
          → ((publisher_for p names).publish_order_status_changed saved old new w).1.redis ≡ w.redis
      sent [] = refl
      sent (broker ∷ names) = elim (Bool-cases (str_eq broker "")) [
        | inl t ↦ rw t refl
        | inr f ↦ rw f refl
      ]

  update_order_status-Removes :
      (brokers : List String) (id : String) (status : OrderStatus)
      → Removes id (update_order_status (runtime p) (dependencies p brokers) id status)
  unfolding update_order_status dependencies repository new_order_repository
  update_order_status-Removes brokers id status =
      >>=-Removes id (find_existing (repository p) id)
        (λ order. restated (some status) (moved_rest brokers id order.status status) order)
        (find_existing-IsUncached id)
        (λ order.
          let rest = moved_rest brokers id order.status status in
          >>=-Removes id (replace_status (some status) order) (written rest)
            (replace_status-Leaves cache_of (some status) order)
            (λ moved.
              >>=-Removes id (run (runtime p).now)
                (λ t. (repository p).update (record moved { updated_at = t }) >>= rest) (λ w. refl)
                (λ t.
                  >>=-Removes id ((repository p).update (record moved { updated_at = t })) rest
                    (λ w. refl)
                    (λ saved.
                      >>=-Removes id (moved_event brokers order.status status saved)
                        (λ _. cache_invalidate (runtime p) (some (order_cache p)) id >> pure saved)
                        (moved_event-IsUncached brokers order.status status saved)
                        (λ _. invalidated-Removes id saved)))))

  -- After a successful UpdateOrderStatus, where the two calls of the cache that come next meet no
  -- fault, its removal of the order and the look-up of the read, GetOrderByID answers from the
  -- database as it is then, whatever the cache held: the read is not stale.
  pub get_order_by_id-update_order_status :
      (brokers : List String) (id : String) (status : OrderStatus) (w w₁ : World p)
      (saved : Order p)
      → update_order_status (runtime p) (dependencies p brokers) id status w ≡ (ok saved, w₁)
      → (condition w.redis).fault ≡ clear
      → (condition_after w.redis).fault ≡ clear
      → (w₂ : World p) × (w₂.database ≡ w₁.database)
        × ((get_order_by_id (runtime p) (dependencies p brokers) id w₁).0
            ≡ (find_existing (repository p) id w₂).0)
  unfolding dependencies order_cache new_order_cache
  get_order_by_id-update_order_status brokers id status w w₁ saved ran calm calm' =
      let gone = update_order_status-Removes brokers id status w w₁ saved ran in
      let missed : (Redis.get {p = p} id w₁.redis).0 ≡ ok none =
        ap (λ c. (Redis.get {p = p} id c).0) gone ∙ get-delete id w.redis calm calm' in
      let (w₂, miss, found) =
        get_order_by_id-found (runtime p) (dependencies p brokers) (order_cache p) id w₁ refl
          (λ o h. hit-neq-miss (sym missed ∙ h)) in
      (w₂, IsMissed-database id w₁ w₂ miss, found)
