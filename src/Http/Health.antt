-- ===== src/Http/Health.antt =====
-- internal/handler/http/health_handler.go.
use Prim.Native.String
use go_ordersvc.Prelude.{⊤, String, Option, none, some}
use go_ordersvc.Json.{Json, str, obj, end, field}
use go_ordersvc.Platform.{Platform}
use go_ordersvc.Effect.{Result, ok, err, Action}
use go_ordersvc.Domain.Errors.{error_text}
use go_ordersvc.Http.Handlers.{Reply, json_reply}

-- `HealthResponse` with its one check.
abbrev pub health_response : {F : Type 0} → String → String → String → String → Json F
health_response status version check outcome = obj (
    field "status" (str status)
      (field "checks" (obj (field check (str outcome) end)) (field "version" (str version) end)))

module _ (S : Type 0) where
  pub record HealthChecker : Type 0 where
    pub ping : Action S ⊤

  pub record HealthHandler : Type 0 where
    pub version : String
    pub db_checker : Option HealthChecker

abbrev pub new_health_handler : {S : Type 0} → String → Option (HealthChecker S) → HealthHandler S
new_health_handler version db_checker = record { version = version; db_checker = db_checker }

module _ {p : Platform} {S : Type 0} where
  unfoldable pub healthz : HealthHandler S → S → Reply p × S
  healthz h s = (json_reply 200 (some (health_response "ok" h.version "server" "ok")), s)

  -- The answer to how the `Ping` of the database ended.
  abbrev pub answer_ping : String → Result ⊤ × S → Reply p × S
  answer_ping version (ok _, s) =
      (json_reply 200 (some (health_response "ok" version "database" "ok")), s)
  answer_ping version (err e, s) = (
    json_reply 503 (
        some (
          health_response "unhealthy" version "database"
            (String.◌++◌ "unhealthy: " (error_text e)))),
    s,
  )

  abbrev pub check_database : String → Option (HealthChecker S) → S → Reply p × S
  check_database version none s =
      (json_reply 200 (some (health_response "ok" version "database" "not configured")), s)
  check_database version (some checker) s = answer_ping version (checker.ping s)

  unfoldable pub readyz : HealthHandler S → S → Reply p × S
  readyz h = check_database h.version h.db_checker
