-- ===== src/Config/Ports.antt =====
-- The ports of the environment and the ports of the addresses.
use go_ordersvc.Prelude.{
  ⊤, String, none, some, ◌≡◌, refl, ap, inl, inr, ◌⊎◌, arith, Bool-cases, Option-cases, str_eq,
  str_eq_iff,
}
use go_ordersvc.Prelude.Int.{ℤ, pos}
use go_ordersvc.Platform.{Platform}
use go_ordersvc.Effect.{Action}
use go_ordersvc.Http.Router.{Chi, Endpoint}
use go_ordersvc.Http.Params.{atoi}
use go_ordersvc.Connections.{Drivers, ◌+text◌, options}
use go_ordersvc.Connections.Decimal.{decimal, IsInt, atoi-IsInt, atoi-decimal}
use go_ordersvc.Server.{World}
use go_ordersvc.Server.Startup.{assemble, redis_config}
use go_ordersvc.Config.{get_env_as_int, load_from_env}

-- The port that a text stands for: the int that `strconv.Atoi` reads in it, or, where it reads none,
-- the default.
abbrev pub IsPortOf : String → ℤ → ℤ → Type 0
IsPortOf text default_value port =
    (atoi text ≡ some port) ⊎ ((atoi text ≡ none) × (port ≡ default_value))

-- An address that was made around a text which is read back as the port.
abbrev pub IsAddressOf : String → (String → String) → ℤ → Type 0
IsAddressOf addr around port = (text : String) × (addr ≡ around text) × (atoi text ≡ some port)

get_env_as_int-IsPortOf :
    (env : String → String) (key : String) (default_value : ℤ)
    → IsPortOf (env key) default_value (get_env_as_int env key default_value)
unfolding get_env_as_int atoi
get_env_as_int-IsPortOf env key default_value = elim (Bool-cases (str_eq (env key) "")) [
  | inl empty ↦ inr (ap atoi ((str_eq_iff (env key) "").0 empty), rw empty refl)
  | inr given ↦ elim (Option-cases (atoi (env key))) [
    | inl unread ↦ inr (unread, rw (given, unread) refl)
    | inr (v, read) ↦ inl (rw (given, read) refl)
  ]
]

IsPortOf-IsInt :
    (text : String) (default_value port : ℤ)
    → IsInt default_value
    → IsPortOf text default_value port
    → IsInt port
IsPortOf-IsInt text default_value port small (inl read) = atoi-IsInt text port read
IsPortOf-IsInt text default_value port small (inr (_, same)) = rw same small

-- Whatever the environment holds: the HTTP server listens at a colon and a text that reads back as the
-- port that HTTP_PORT stands for, 8080 where Atoi reads no int in it, and the Redis client is given the
-- host, a colon and a text that reads back as the port that REDIS_PORT stands for, or 6379.
pub load_from_env-ports :
    (p : Platform) (drivers : Drivers (World p)) (chi : Chi (Endpoint p (World p)))
    (close_writer : Action (World p) ⊤) (pool : drivers.Pool) (client : drivers.RedisClient)
    (env : String → String)
    → (http redis : ℤ) × IsPortOf (env "HTTP_PORT") (pos 8080) http
      × IsAddressOf
          (assemble drivers chi close_writer (load_from_env env) pool client).http_server.addr
          (λ text. ":" +text text)
          http
      × IsPortOf (env "REDIS_PORT") (pos 6379) redis
      × IsAddressOf
          (options (redis_config (load_from_env env))).addr
          (λ text. (load_from_env env).redis.host +text ":" +text text)
          redis
unfolding load_from_env
load_from_env-ports p drivers chi close_writer pool client env =
    let http = get_env_as_int env "HTTP_PORT" (pos 8080) in
    let redis = get_env_as_int env "REDIS_PORT" (pos 6379) in
    let http_port = get_env_as_int-IsPortOf env "HTTP_PORT" (pos 8080) in
    let redis_port = get_env_as_int-IsPortOf env "REDIS_PORT" (pos 6379) in
    (
      http,
      redis,
      http_port,
      (
        decimal http,
        refl,
        atoi-decimal http
            (IsPortOf-IsInt (env "HTTP_PORT") (pos 8080) http (omega arith) http_port),
      ),
      redis_port,
      (
        decimal redis,
        refl,
        atoi-decimal redis
            (IsPortOf-IsInt (env "REDIS_PORT") (pos 6379) redis (omega arith) redis_port),
      ),
    )
