-- ===== src/Server/Startup.antt =====
-- cmd/ordersvc/server.go: `NewServer`, from a configuration to the parts that it keeps. The process
-- ends inside it where a connection fails: `os.Exit(1)` after an error has been logged is the error
-- wrapped in the logged message.
use go_ordersvc.Prelude.{ℕ, ⊤, String, Option, none, some, List, [], ◌∷◌, str_eq, if◌then◌else◌}
use go_ordersvc.Platform.{Platform}
use go_ordersvc.Effect.{Result, Action, pure, modify, ◌>>=◌, ◌>>◌}
use go_ordersvc.Http.Handlers.{new_order_handler}
use go_ordersvc.Http.Health.{HealthChecker, new_health_handler}
use go_ordersvc.Http.Router.{Chi, Endpoint, new_router}
use go_ordersvc.Grpc.Registration.{GrpcHandler, register_order_server}
use go_ordersvc.Connections.{
  Drivers, RedisConfig, ◌+text◌, wrap_error, wrapping, pinged, new_client,
}
use go_ordersvc.Connections.Decimal.{decimal}
use go_ordersvc.Config.{Config}
use go_ordersvc.Messaging.Kafka.{close}
use go_ordersvc.Server.{World, new_server, safe_int32}

abbrev pub database_url : Config → String
database_url cfg =
    let db = cfg.database in
    "postgres://"
    +text db.user
    +text ":"
    +text db.password
    +text "@"
    +text db.host
    +text ":"
    +text decimal db.port
    +text "/"
    +text db.database
    +text "?sslmode="
    +text db.ssl_mode

-- `config.Redis` as the Redis package takes it.
abbrev pub redis_config : Config → RedisConfig
redis_config cfg = record {
  host = cfg.redis.host;
  port = cfg.redis.port;
  password = cfg.redis.password;
  db = cfg.redis.db;
}

-- A value that was computed, as an action.
abbrev lift : {S A : Type 0} → Result A → Action S A
lift r s = (r, s)

-- `http.Server`, as far as the code sets it.
pub record HttpServer (M : Type 0) : Type 0 where
  pub addr : String
  pub router : M
  pub read_timeout : ℕ
  pub write_timeout : ℕ

-- `Server`: its two servers, its configuration, its pool, and what closes Redis and Kafka.
pub record Server (p : Platform) (S M P : Type 0) : Type 0 where
  pub http_server : HttpServer M
  pub grpc_server : Option (GrpcHandler p S)
  pub cfg : Config
  pub db_pool : Option P
  pub redis_closer : Option (Action S ⊤)
  pub kafka_closer : Option (Action S ⊤)

module _ {S : Type 0} (drivers : Drivers S) where
  open drivers use {PoolConfig}

  abbrev pub limited : Config → PoolConfig → PoolConfig
  limited cfg =
      drivers.set_limits (safe_int32 cfg.database.max_open_conns)
        (safe_int32 cfg.database.max_idle_conns) cfg.database.conn_max_lifetime
        cfg.database.conn_max_idle_time

module _ {p : Platform} (drivers : Drivers (World p)) (chi : Chi (Endpoint p (World p)))
    (close_writer : Action (World p) ⊤) where
  open drivers use {Pool, RedisClient}

  unfoldable pub open_database : Config → Action (World p) Pool
  open_database cfg =
      lift (wrap_error "failed to parse database config" (drivers.parse_config (database_url cfg)))
      >>= λ parsed.
          wrapping "failed to create database pool"
            (drivers.open_configured (limited drivers cfg parsed))
          >>= λ pool. pinged "failed to ping database" (drivers.ping_pool pool) pool

  abbrev pub pg_health_checker : Pool → HealthChecker (World p)
  pg_health_checker pool = record { ping = drivers.ping_pool pool }

  -- `kp.Close`, where Kafka is configured.
  abbrev pub kafka_closer_for : List String → Option (Action (World p) ⊤)
  kafka_closer_for [] = none
  kafka_closer_for (broker ∷ brokers) = if str_eq broker "" then none else some (close close_writer)

  -- What is made once the pool and the client are there.
  abbrev pub assemble : Config → Pool → RedisClient → Server p (World p) chi.Mux Pool
  assemble cfg pool client =
      let service = new_server p cfg.kafka.brokers in
      record {
        http_server = record {
          addr = ":" +text decimal cfg.server.http_port;
          router =
              new_router chi (new_order_handler service)
                (new_health_handler cfg.app.version (some (pg_health_checker pool)));
          read_timeout = cfg.server.read_timeout;
          write_timeout = cfg.server.write_timeout;
        };
        grpc_server = some (register_order_server service cfg.kafka);
        cfg = cfg;
        db_pool = some pool;
        redis_closer = some (drivers.close_client client);
        kafka_closer = kafka_closer_for cfg.kafka.brokers;
      }

  -- The line that the log has on Kafka.
  abbrev pub kafka_message : List String → String
  kafka_message [] = "Kafka not configured, using no-op publisher"
  kafka_message (broker ∷ brokers) =
      if str_eq broker ""
      then "Kafka not configured, using no-op publisher"
      else "Kafka publisher initialized"

  module _ (info : String → World p → World p) (cfg : Config) where
    -- What follows the connection to Redis, and the one to PostgreSQL. `info` logs a line.
    abbrev pub with_client : Pool → RedisClient → Action (World p) (Server p (World p) chi.Mux Pool)
    with_client pool client =
        modify (info "connected to Redis")
        >> modify (info (kafka_message cfg.kafka.brokers))
        >> pure (assemble cfg pool client)

    abbrev pub with_pool : Pool → Action (World p) (Server p (World p) chi.Mux Pool)
    with_pool pool =
        modify (info "connected to PostgreSQL")
        >> wrapping "failed to connect to Redis" (new_client drivers (redis_config cfg))
        >>= with_client pool

    unfoldable pub start_up : Action (World p) (Server p (World p) chi.Mux Pool)
    unfolding open_database new_client
    start_up = open_database cfg >>= with_pool
