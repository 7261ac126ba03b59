-- ===== src/Config.antt =====
-- internal/config/config.go: the configuration that `LoadFromEnv` reads, with the environment as a
-- function from a name to what `os.Getenv` returns, the empty text for none. Durations are
-- nanoseconds.
pub mod Brokers
pub mod Ports
use go_ordersvc.Prelude.{
  ℕ, ◌*◌, Bool, false, String, none, some, List, [], ◌∷◌, str_eq, if◌then◌else◌,
}
use go_ordersvc.Prelude.Int.{ℤ, pos}
use go_ordersvc.Http.Params.{atoi}

abbrev pub second : ℕ
second = 1_000_000_000

pub record AppConfig : Type 0 where
  pub name : String
  pub version : String
  pub environment : String
  pub log_level : String

pub record ServerConfig : Type 0 where
  pub http_port : ℤ
  pub grpc_port : ℤ
  pub read_timeout : ℕ
  pub write_timeout : ℕ
  pub shutdown_timeout : ℕ
  pub enable_pprof : Bool

pub record DatabaseConfig : Type 0 where
  pub host : String
  pub port : ℤ
  pub user : String
  pub password : String
  pub database : String
  pub ssl_mode : String
  pub max_open_conns : ℤ
  pub max_idle_conns : ℤ
  pub conn_max_lifetime : ℕ
  pub conn_max_idle_time : ℕ
  pub migrations_path : String

pub record RedisConfig : Type 0 where
  pub host : String
  pub port : ℤ
  pub password : String
  pub db : ℤ
  pub max_retries : ℤ
  pub pool_size : ℤ
  pub pool_timeout : ℕ

pub record KafkaConfig : Type 0 where
  pub brokers : List String
  pub topic : String
  pub group_id : String

pub record CacheConfig : Type 0 where
  pub default_ttl : ℕ
  pub hot_ttl : ℕ

pub record Config : Type 0 where
  pub app : AppConfig
  pub server : ServerConfig
  pub database : DatabaseConfig
  pub redis : RedisConfig
  pub kafka : KafkaConfig
  pub cache : CacheConfig

unfoldable pub get_env : (String → String) → String → String → String
get_env env key default_value = if str_eq (env key) "" then default_value else env key

unfoldable pub get_env_as_int : (String → String) → String → ℤ → ℤ
unfolding atoi
get_env_as_int env key default_value =
    if str_eq (env key) ""
    then default_value
    else elim (atoi (env key)) [ none ↦ default_value | some int_value ↦ int_value ]

unfoldable pub load_from_env : (String → String) → Config
unfolding get_env get_env_as_int
load_from_env env = record {
  app = record {
    name = get_env env "APP_NAME" "ordersvc";
    version = get_env env "APP_VERSION" "dev";
    environment = get_env env "APP_ENVIRONMENT" "development";
    log_level = get_env env "APP_LOG_LEVEL" "info";
  };
  server = record {
    http_port = get_env_as_int env "HTTP_PORT" (pos 8080);
    grpc_port = get_env_as_int env "GRPC_PORT" (pos 9090);
    read_timeout = 10 * second;
    write_timeout = 10 * second;
    shutdown_timeout = 30 * second;
    enable_pprof = false;
  };
  database = record {
    host = get_env env "DATABASE_HOST" "localhost";
    port = get_env_as_int env "DATABASE_PORT" (pos 5432);
    user = get_env env "DATABASE_USER" "postgres";
    password = get_env env "DATABASE_PASSWORD" "postgres";
    database = get_env env "DATABASE_NAME" "ordersvc";
    ssl_mode = get_env env "DATABASE_SSL_MODE" "disable";
    max_open_conns = pos 25;
    max_idle_conns = pos 5;
    conn_max_lifetime = 5 * 60 * second;
    conn_max_idle_time = 10 * 60 * second;
    migrations_path = "file://db/migrations";
  };
  redis = record {
    host = get_env env "REDIS_HOST" "localhost";
    port = get_env_as_int env "REDIS_PORT" (pos 6379);
    password = get_env env "REDIS_PASSWORD" "";
    db = get_env_as_int env "REDIS_DB" (pos 0);
    max_retries = pos 3;
    pool_size = pos 10;
    pool_timeout = 4 * second;
  };
  kafka = record {
    brokers = get_env env "KAFKA_BROKERS" "localhost:9092" ∷ [];
    topic = get_env env "KAFKA_TOPIC" "order-events";
    group_id = get_env env "KAFKA_GROUP_ID" "ordersvc";
  };
  cache = record { default_ttl = 5 * 60 * second; hot_ttl = 60 * 60 * second };
}
