-- ===== src/Examples/Processes.antt =====
-- The theorems of the middleware, the router and the process at concrete handlers and hosts.
use go_ordersvc.Prelude.{
  ℕ, ⊤, Bool, true, false, String, none, some, List, [], ◌∷◌, ◌≡◌, refl, ap, subst, some_unique,
  arith, All, length, if◌then◌else◌, str_eq,
}
use go_ordersvc.Prelude.Int.{pos}
use go_ordersvc.Effect.{ok, err, Action}
use go_ordersvc.Domain.Errors.{outside}
use go_ordersvc.Service.Interface.{OrderService}
use go_ordersvc.Middleware.Writer.{
  Request, Response, Calls, returns, panics, sets_header, writes_header, fresh, net_http,
  perform_all, client_status, handler,
}
use go_ordersvc.Middleware.Wrappers.{recovery, request_id}
use go_ordersvc.Middleware.Logging.{LogLine, logging}
use go_ordersvc.Middleware.Logged.{logged, logging-recovery}
use go_ordersvc.Http.Handlers.{HttpRequest, OrderHandler, new_order_handler}
use go_ordersvc.Http.Health.{HealthHandler, new_health_handler}
use go_ordersvc.Http.Router.{Chi, Endpoint, Route}
use go_ordersvc.Http.Routes.{documented}
use go_ordersvc.Http.Access.{LogsItsStatus, documented-LogsItsStatus}
use go_ordersvc.Connections.{Drivers, options, ◌+text◌}
use go_ordersvc.Prelude.Int.{ℤ, pos}
use go_ordersvc.Config.{load_from_env}
use go_ordersvc.Config.Ports.{IsPortOf, IsAddressOf, load_from_env-ports}
use go_ordersvc.Server.{World, new_server}
use go_ordersvc.Server.Startup.{Server, start_up, assemble, redis_config}
use go_ordersvc.Server.Lifecycle.{Host, shutdown}
use go_ordersvc.Server.Closing.{
  Resource, grpc_calls, http_listener, database_pool, redis_client, kafka_writer, Closes, AllClosed,
  shutdown-AllClosed,
}
use go_ordersvc.Server.Failures.{Ended, AllReached, StartFailure, start_up-StartFailure}
use go_ordersvc.Examples.Concrete.{sample, world_of}

-- The state is the log.
abbrev Log : Type 0
Log = List LogLine

abbrev log_line : LogLine → Log → Log
log_line line log = line ∷ log

abbrev now : Log → ℕ × Log
now log = (length log, log)

abbrev ping_request : Request
ping_request = record {
  method = "GET";
  path = "/healthz";
  remote_addr = "10.0.0.1";
  header = λ name. if str_eq name "X-Request-Id" then "r1" else "";
  chi_request_id = "c1";
  request_id = none;
}

-- Sets a header and panics.
abbrev failing : Calls String Log
failing r log = (panics "boom", sets_header "Content-Type" "text/plain" ∷ [], log)

logging-recovery_example :
    let response =
      perform_all net_http
        (sets_header "Content-Type" "text/plain" ∷ writes_header 500 ∷ [])
        (fresh {B = String}) in
    logging log_line now
      (recovery (handler failing))
      (Response String)
      net_http
      ping_request
      fresh
      []
    ≡ (returns, response, logged log_line now ping_request (client_status response) [] [])
logging-recovery_example =
    logging-recovery log_line now failing ping_request [] []
      (sets_header "Content-Type" "text/plain" ∷ []) "boom" refl refl

-- An id for a request without one.
abbrev new_id : Log → String × Log
new_id log = ("fresh", log)

abbrev W : Type 0
W = World sample

-- A router that is the list of what was called.
abbrev listing_chi : Chi (Endpoint sample W)
listing_chi = record {
  Mux = List String;
  new_mux = [];
  use_middleware = λ m r. "Use" ∷ r;
  handle = λ method pattern h r. method ∷ pattern ∷ r;
  route = λ prefix f r. prefix ∷ f r;
}

abbrev service : OrderService sample W
service = new_server sample ("kafka:9092" ∷ [])

abbrev orders : OrderHandler sample W
orders = new_order_handler service

abbrev health : HealthHandler W
health = new_health_handler "1" none

-- The log of a world is the list of its warnings here.
abbrev log_world : LogLine → W → W
log_world line w = record w { warnings = (line.method, line.path, outside "logged") ∷ w.warnings }

abbrev tick : W → ℕ × W
tick w = (w.drawn, w)

abbrev read_request : Request → HttpRequest sample
read_request r = record { id = "u1"; query = λ name. ""; body = none }

documented-LogsItsStatus_example :
    All
      (λ (e : Route (Endpoint sample W)). LogsItsStatus log_world tick read_request e.endpoint)
      (documented orders health)
documented-LogsItsStatus_example =
    documented-LogsItsStatus log_world tick read_request orders health

-- Drivers whose Redis cannot be reached.
abbrev drivers : Drivers W
drivers = record {
  PoolConfig = String;
  Pool = String;
  RedisClient = String;
  parse_config = λ dsn. ok dsn;
  set_limits = λ most least lifetime idle dsn. dsn;
  open_pool = λ dsn w. (ok dsn, w);
  open_configured = λ dsn w. (ok dsn, w);
  ping_pool = λ pool w. (ok tt, w);
  close_pool = λ pool w. w;
  open_client = λ opts w. (opts.addr, w);
  ping_client = λ client w. (err (outside "connection refused"), w);
  close_client = λ client w. (ok tt, w);
}

abbrev close_writer : Action W ⊤
close_writer w = (ok tt, w)

abbrev env : String → String
env name =
    if str_eq name "HTTP_PORT" then "+080" else if str_eq name "REDIS_PORT" then "none" else ""

abbrev log_text : String → W → W
log_text m w = record w { warnings = (m, "", outside m) ∷ w.warnings }

start_up-StartFailure_example :
    Ended
      (λ _. AllReached drivers log_text (load_from_env env) (world_of [] []))
      (StartFailure drivers log_text (load_from_env env) (world_of [] []))
      (start_up drivers listing_chi close_writer log_text (load_from_env env) (world_of [] [])).0
start_up-StartFailure_example =
    start_up-StartFailure drivers listing_chi close_writer log_text (load_from_env env)
      (world_of [] [])

-- A sign and a leading zero are no matter, and a text that is no int is passed over.
load_from_env-ports_example :
    (http redis : ℤ) × IsPortOf (env "HTTP_PORT") (pos 8080) http
    × IsAddressOf
        (assemble drivers listing_chi close_writer
          (load_from_env env)
          "pool"
          "client").http_server.addr
        (λ text. ":" +text text)
        http
    × IsPortOf (env "REDIS_PORT") (pos 6379) redis
    × IsAddressOf
        (options (redis_config (load_from_env env))).addr
        (λ text. (load_from_env env).redis.host +text ":" +text text)
        redis
load_from_env-ports_example =
    load_from_env-ports sample drivers listing_chi close_writer "pool" "client" env

-- Which resources are closed.
abbrev Flags : Type 0
Flags = Resource → Bool

abbrev same_resource : Resource → Resource → Bool
same_resource grpc_calls grpc_calls = true
same_resource http_listener http_listener = true
same_resource database_pool database_pool = true
same_resource redis_client redis_client = true
same_resource kafka_writer kafka_writer = true
same_resource _ _ = false

abbrev close : Resource → Flags → Flags
close x flags y = if same_resource x y then true else flags y

close-keeps : (x y : Resource) (flags : Flags) → flags y ≡ true → close x flags y ≡ true
close-keeps x y flags h = ground arith

abbrev IsClosed : Resource → Flags → Type 0
IsClosed x flags = flags x ≡ true

-- A host whose HTTP server does not stop in time.
abbrev host : Host Flags
host = record {
  log_info = λ m s. s;
  log_error = λ m e s. s;
  listen = λ addr s. (ok tt, s);
  serve_grpc = λ s. (ok tt, s);
  graceful_stop = λ s. some (close grpc_calls s);
  listen_and_serve = λ addr s. (none, s);
  shutdown_http = λ s. (err (outside "context deadline exceeded"), close http_listener s);
}

abbrev all_open : Flags
all_open x = false

-- Closing Redis fails too, and Kafka is not configured.
abbrev running : Server sample Flags ⊤ ⊤
running = record {
  http_server = record { addr = ":8080"; router = tt; read_timeout = 1; write_timeout = 1 };
  grpc_server = none;
  cfg = load_from_env env;
  db_pool = some tt;
  redis_closer = some (λ s. (err (outside "closed"), close redis_client s));
  kafka_closer = none;
}

abbrev close_pool : ⊤ → Flags → Flags
close_pool _ = close database_pool

grpc-IsClosed : (s s' : Flags) → host.graceful_stop s ≡ some s' → IsClosed grpc_calls s'
grpc-IsClosed s s' e = ap (λ (flags : Flags). flags grpc_calls) (some_unique e refl)

redis-Closes : Closes IsClosed redis_client (close redis_client)
redis-Closes = (λ s. refl, λ x s c. close-keeps redis_client x s c)

shutdown-AllClosed_example :
    (s' : Flags) × (shutdown host close_pool running all_open
      ≡ some (err (outside "context deadline exceeded"), s'))
    × AllClosed IsClosed running s'
shutdown-AllClosed_example =
    shutdown-AllClosed IsClosed host close_pool running all_open all_open (λ m x s c. c)
      (λ m e x s c. c) grpc-IsClosed (λ s. refl, λ x s c. close-keeps http_listener x s c)
      (λ pool. (λ s. refl, λ x s c. close-keeps database_pool x s c))
      (λ f e.
        subst (λ g. Closes IsClosed redis_client (λ s. (g s).1)) (some_unique refl e) redis-Closes)
      (λ f e. absurd (cc e)) refl
