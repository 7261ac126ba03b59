-- ===== src/Server/Requests/Silent.antt =====
-- The steps of the service that leave the database alone.
use go_ordersvc.Prelude.{
  ⊤, String, Option, some, List, [], ◌∷◌, ◌≡◌, refl, ◌∙◌, inl, inr, Bool-cases, str_eq,
}
use go_ordersvc.Platform.{Platform}
use go_ordersvc.Effect.{Result, ok, err, Action}
use go_ordersvc.Domain.Order.{Order}
use go_ordersvc.Repository.Database.{Database}
use go_ordersvc.Messaging.Kafka.{noop_publisher}
use go_ordersvc.Service.Interface.{EventPublisher}
use go_ordersvc.Service.Steps.{
  publish, warn_about, cache_invalidate, cache_store, cache_lookup, miss_on_error, order_cache_ttl,
}
use go_ordersvc.Server.Untouched.{Leaves}
use go_ordersvc.Server.{World, runtime, order_cache, publisher_for, kafka_publisher}

module _ {p : Platform} where
  abbrev pub database_of : World p → Database p
  database_of w = w.database

  -- Publishing and the cache do not touch the database.
  warn_about-database :
      (text id : String) (r : Result ⊤) (w : World p)
      → (warn_about (runtime p) text id r w).1.database ≡ w.database
  warn_about-database text id (ok _) w = refl
  warn_about-database text id (err e) w = refl

  publisher_for-Leaves :
      (brokers : List String) (send : EventPublisher p (World p) → Action (World p) ⊤)
      → Leaves database_of (send (noop_publisher p (World p)))
      → Leaves database_of (send (kafka_publisher p))
      → Leaves database_of (send (publisher_for p brokers))
  unfolding publisher_for
  publisher_for-Leaves [] send quiet kafka = quiet
  publisher_for-Leaves (broker ∷ brokers) send quiet kafka = elim (Bool-cases (str_eq broker "")) [
    | inl t ↦ rw t quiet
    | inr f ↦ rw f kafka
  ]

  pub publish-Leaves :
      (brokers : List String) (text : String) (order : Order p)
      (send : EventPublisher p (World p) → Action (World p) ⊤)
      → Leaves database_of (send (noop_publisher p (World p)))
      → Leaves database_of (send (kafka_publisher p))
      → Leaves database_of (publish (runtime p) (some (publisher_for p brokers)) text order send)
  publish-Leaves brokers text order send quiet kafka w =
      warn_about-database text (p.uuid_string order.id) (send (publisher_for p brokers) w).0
        (send (publisher_for p brokers) w).1
      ∙ publisher_for-Leaves brokers send quiet kafka w

  pub cache_invalidate-Leaves :
      (id : String) → Leaves database_of (cache_invalidate (runtime p) (some (order_cache p)) id)
  unfolding order_cache
  cache_invalidate-Leaves id w =
      warn_about-database "cache delete failed" id ((order_cache p).delete id w).0
        ((order_cache p).delete id w).1

  pub cache_store-Leaves :
      (id : String) (order : Order p)
      → Leaves database_of (cache_store (runtime p) (some (order_cache p)) id order)
  unfolding order_cache
  cache_store-Leaves id order w =
      warn_about-database "cache set failed" id ((order_cache p).set order order_cache_ttl w).0
        ((order_cache p).set order order_cache_ttl w).1

  miss_on_error-database :
      (id : String) (r : Result (Option (Order p))) (w : World p)
      → (miss_on_error (runtime p) id r w).1.database ≡ w.database
  miss_on_error-database id (ok cached) w = refl
  miss_on_error-database id (err e) w = refl

  pub cache_lookup-Leaves :
      (id : String) → Leaves database_of (cache_lookup (runtime p) (some (order_cache p)) id)
  unfolding order_cache
  cache_lookup-Leaves id w =
      miss_on_error-database id ((order_cache p).get id w).0 ((order_cache p).get id w).1
