-- ===== src/Server.antt =====
-- cmd/ordersvc/server.go: the service over its database, its cache and its topic, as `NewServer`
-- puts them together, with the process's source of UUIDs, its clock and its log.
pub mod Untouched
pub mod Staleness
pub mod Created
pub mod Freshness
pub mod Requests
pub mod Startup
pub mod Lifecycle
pub mod Closing
pub mod Failures
use go_ordersvc.Prelude.{
  ℕ, suc, ⊤, String, Option, none, some, List, [], ◌∷◌, str_eq, if◌then◌else◌,
}
use go_ordersvc.Prelude.Int.{ℤ, pos, ltb_ℤ, int32}
use go_ordersvc.Platform.{Platform}
use go_ordersvc.Effect.{Action, zoom}
use go_ordersvc.Domain.Errors.{Error}
use go_ordersvc.Repository.Interface.{OrderRepository}
use go_ordersvc.Repository.Database.{Database}
use go_ordersvc.Repository.Listing.{new_order_repository}
use go_ordersvc.Cache.Interface.{OrderCache}
use go_ordersvc.Cache.Redis.{RedisServer, new_order_cache}
use go_ordersvc.Messaging.Kafka.{Topic, new_publisher, noop_publisher}
use go_ordersvc.Service.Interface.{EventPublisher, OrderService, Runtime}
use go_ordersvc.Service.Impl.{OrderServiceImpl, new_order_service}

module _ (p : Platform) where
  pub record World : Type 0 where
    pub database : Database p
    pub redis : RedisServer p
    pub topic : Topic p
    -- The UUIDs and the times that the process draws, and how many it has drawn.
    pub uuids : ℕ → p.UUID
    pub times : ℕ → ℕ
    pub drawn : ℕ
    pub warnings : List (String × String × Error)

module _ {p : Platform} where
  abbrev pub on_database : {A : Type 0} → Action (Database p) A → Action (World p) A
  on_database m = zoom (λ (w : World p). w.database) (λ d w. record w { database = d }) m

  abbrev pub on_redis : {A : Type 0} → Action (RedisServer p) A → Action (World p) A
  on_redis m = zoom (λ (w : World p). w.redis) (λ c w. record w { redis = c }) m

  abbrev pub on_topic : {A : Type 0} → Action (Topic p) A → Action (World p) A
  on_topic m = zoom (λ (w : World p). w.topic) (λ t w. record w { topic = t }) m

module _ (p : Platform) where
  abbrev pub runtime : Runtime p (World p)
  runtime = record {
    new_uuid = λ w. (w.uuids w.drawn, record w { drawn = suc w.drawn });
    now = λ w. (w.times w.drawn, record w { drawn = suc w.drawn });
    warn = λ message id e w. record w { warnings = (message, id, e) ∷ w.warnings };
  }

  unfoldable pub repository : OrderRepository p (World p)
  unfolding new_order_repository
  repository =
      let repo = new_order_repository p in
      record {
        create = λ order. on_database (repo.create order);
        find_by_id = λ id. on_database (repo.find_by_id id);
        update = λ order. on_database (repo.update order);
        delete = λ id. on_database (repo.delete id);
        list = λ opts. on_database (repo.list opts);
        find_by_customer_id =
            λ customer_id opts. on_database (repo.find_by_customer_id customer_id opts);
      }

  unfoldable pub order_cache : OrderCache p (World p)
  unfolding new_order_cache
  order_cache =
      let cache = new_order_cache p in
      record {
        get = λ id. on_redis (cache.get id);
        set = λ order ttl. on_redis (cache.set order ttl);
        delete = λ id. on_redis (cache.delete id);
        delete_pattern = λ rounds pattern. on_redis (cache.delete_pattern rounds pattern);
      }

  abbrev pub kafka_publisher : EventPublisher p (World p)
  kafka_publisher =
      let kafka = new_publisher p in
      record {
        publish_order_created = λ order. on_topic (kafka.publish_order_created order);
        publish_order_updated = λ order. on_topic (kafka.publish_order_updated order);
        publish_order_status_changed = λ order old_status new_status.
            on_topic (kafka.publish_order_status_changed order old_status new_status);
      }

  -- Kafka where a first broker is configured, or else no publisher that does anything.
  unfoldable pub publisher_for : List String → EventPublisher p (World p)
  unfolding new_publisher noop_publisher
  publisher_for [] = noop_publisher p (World p)
  publisher_for (broker ∷ brokers) =
      if str_eq broker "" then noop_publisher p (World p) else kafka_publisher

  -- The dependencies of the service that `NewServer` makes.
  unfoldable pub dependencies : List String → OrderServiceImpl p (World p)
  unfolding repository order_cache publisher_for
  dependencies brokers = record {
    repo = repository;
    cache = some order_cache;
    publisher = some (publisher_for brokers);
  }

  unfoldable pub new_server : List String → OrderService p (World p)
  unfolding repository order_cache publisher_for new_order_service
  new_server brokers =
      new_order_service runtime repository (some order_cache) (some (publisher_for brokers))

-- `safeInt32`
unfoldable pub safe_int32 : ℤ → ℤ
safe_int32 v =
    if ltb_ℤ (pos 2_147_483_647) v
    then pos 2_147_483_647
    else if ltb_ℤ v (pos 0)
    then pos 0
    else int32 v
