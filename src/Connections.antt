-- ===== src/Connections.antt =====
-- internal/repository/postgres/connection.go and internal/cache/redis/connection.go, over the drivers
-- pgx and go-redis.
pub mod Decimal
use Prim.Native.String
use go_ordersvc.Prelude.{ℕ, ⊤, String}
use go_ordersvc.Prelude.Int.{ℤ}
use go_ordersvc.Effect.{Result, ok, err, Action, pure, run, ◌>>=◌, ◌>>◌}
use go_ordersvc.Domain.Errors.{Error, wrapped}
use go_ordersvc.Connections.Decimal.{decimal}

infixr 60 ◌+text◌
abbrev pub ◌+text◌ : String → String → String
a +text b = String.◌++◌ a b

-- `redis.Options`, as far as the code sets them.
pub record RedisOptions : Type 0 where
  pub addr : String
  pub password : String
  pub db : ℤ

-- What the drivers do: `pgxpool.ParseConfig`, `New` and `NewWithConfig`, the settings of a
-- configuration, `Ping` and `Close` of a pool; `redis.NewClient`, `Ping` and `Close` of a client.
pub record Drivers (S : Type 0) : Type 1 where
  pub PoolConfig : Type 0
  pub Pool : Type 0
  pub RedisClient : Type 0
  pub parse_config : String → Result PoolConfig
  pub set_limits : ℤ → ℤ → ℕ → ℕ → PoolConfig → PoolConfig
  pub open_pool : String → Action S Pool
  pub open_configured : PoolConfig → Action S Pool
  pub ping_pool : Pool → Action S ⊤
  pub close_pool : Pool → S → S
  pub open_client : RedisOptions → S → RedisClient × S
  pub ping_client : RedisClient → Action S ⊤
  pub close_client : RedisClient → Action S ⊤

-- `fmt.Errorf("m: %w", err)` where an action fails.
abbrev pub wrap_error : {A : Type 0} → String → Result A → Result A
wrap_error m (ok a) = ok a
wrap_error m (err e) = err (wrapped m e)

abbrev pub wrapping : {S A : Type 0} → String → Action S A → Action S A
wrapping m action s = let (r, s') = action s in (wrap_error m r, s')

-- `if err := ping; err != nil { return nil, fmt.Errorf("m: %w", err) }; return a, nil`
abbrev pub pinged : {S A : Type 0} → String → Action S ⊤ → A → Action S A
pinged m ping a = wrapping m ping >> pure a

-- `Config` of the Redis package.
pub record RedisConfig : Type 0 where
  pub host : String
  pub port : ℤ
  pub password : String
  pub db : ℤ

-- `Config` of the PostgreSQL package.
pub record PostgresConfig : Type 0 where
  pub host : String
  pub port : ℤ
  pub user : String
  pub password : String
  pub database : String
  pub ssl_mode : String

-- `fmt.Sprintf("%s:%d", host, port)`
abbrev pub address : String → ℤ → String
address host port = host +text ":" +text decimal port

abbrev pub options : RedisConfig → RedisOptions
options cfg = record { addr = address cfg.host cfg.port; password = cfg.password; db = cfg.db }

abbrev pub keyword_dsn : PostgresConfig → String
keyword_dsn cfg =
    "host="
    +text cfg.host
    +text " port="
    +text decimal cfg.port
    +text " user="
    +text cfg.user
    +text " password="
    +text cfg.password
    +text " dbname="
    +text cfg.database
    +text " sslmode="
    +text cfg.ssl_mode

module _ {S : Type 0} (drivers : Drivers S) where
  open drivers use {Pool, RedisClient}

  unfoldable pub new_client : RedisConfig → Action S RedisClient
  new_client cfg = run (drivers.open_client (options cfg)) >>= λ client.
      pinged "failed to ping redis" (drivers.ping_client client) client

  unfoldable pub new_pool : PostgresConfig → Action S Pool
  new_pool cfg =
      wrapping "failed to create connection pool" (drivers.open_pool (keyword_dsn cfg)) >>= λ pool.
      pinged "failed to ping database" (drivers.ping_pool pool) pool
