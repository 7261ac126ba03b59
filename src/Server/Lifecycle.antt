-- ===== src/Server/Lifecycle.antt =====
-- cmd/ordersvc/server.go: `Start`, `Shutdown` and `Run`; and cmd/ordersvc/main.go.
use go_ordersvc.Prelude.{ℕ, ⊤, String, Option, none, some}
use go_ordersvc.Json.{◌>>=◌}
use go_ordersvc.Platform.{Platform}
use go_ordersvc.Effect.{Result, ok, err, Action}
use go_ordersvc.Domain.Errors.{Error, wrapped}
use go_ordersvc.Connections.{◌+text◌}
use go_ordersvc.Connections.Decimal.{decimal}
use go_ordersvc.Config.{Config, load_from_env}
use go_ordersvc.Server.Startup.{Server}

-- What the process uses of its logger, of net, of net/http and of the gRPC server. `GracefulStop`
-- waits for every call that is open, and may wait for ever: then it is `none`. `ListenAndServe` ends
-- with an error, or with `none` where that is ErrServerClosed.
pub record Host (S : Type 0) : Type 0 where
  pub log_info : String → S → S
  pub log_error : String → Error → S → S
  pub listen : String → Action S ⊤
  pub serve_grpc : Action S ⊤
  pub graceful_stop : S → Option S
  pub listen_and_serve : String → S → Option Error × S
  pub shutdown_http : Action S ⊤

abbrev pub served : {S : Type 0} → Option Error × S → Result ⊤ × S
served (none, s) = (ok tt, s)
served (some e, s) = (err (wrapped "failed to start HTTP server" e), s)

-- How the process ends: inside `NewServer`, or with what `Shutdown` returns.
pub data Outcome : Type 0 where
  exited : Error → Outcome
  finished : Result ⊤ → Outcome

-- `main`: the exit code of the process.
abbrev pub exit_code : Outcome → ℕ
exit_code (exited e) = 1
exit_code (finished (ok _)) = 0
exit_code (finished (err e)) = 1

module _ {S : Type 0} (host : Host S) where
  -- An error is logged and left at that.
  abbrev pub log_failure : String → Result ⊤ × S → S
  log_failure message (ok _, s) = s
  log_failure message (err e, s) = host.log_error message e s

  -- The goroutine of `Start`.
  abbrev pub after_listen : Result ⊤ × S → S
  after_listen (err e, s) = host.log_error "failed to listen for gRPC" e s
  after_listen (ok _, s) =
      log_failure "gRPC server error" (host.serve_grpc (host.log_info "starting gRPC server" s))

  abbrev pub stop_grpc : {G : Type 0} → Option G → S → Option S
  stop_grpc none s = some s
  stop_grpc (some _) s = host.graceful_stop (host.log_info "stopping gRPC server" s)

  abbrev pub close_database : {P : Type 0} → (P → S → S) → Option P → S → S
  close_database close_pool none s = s
  close_database close_pool (some pool) s =
      close_pool pool (host.log_info "closing database connection pool" s)

  abbrev pub close_with : String → String → Option (Action S ⊤) → S → S
  close_with closing failed none s = s
  close_with closing failed (some close) s = log_failure failed (close (host.log_info closing s))

module _ {p : Platform} {S M P : Type 0} (host : Host S) (close_pool : P → S → S) where
  unfoldable pub serve_grpc : Server p S M P → S → S
  serve_grpc server s =
      after_listen host (host.listen (":" +text decimal server.cfg.server.grpc_port) s)

  -- `Start`, where `background` runs a goroutine.
  unfoldable pub start : ((S → S) → S → S) → Server p S M P → Action S ⊤
  unfolding serve_grpc
  start background server s = served (
      host.listen_and_serve server.http_server.addr
        (host.log_info "starting HTTP server" (background (serve_grpc server) s)))

  abbrev pub close_all : Server p S M P → S → S
  close_all server s =
      let s₁ = close_database host close_pool server.db_pool s in
      let s₂ =
        close_with host "closing Redis connection" "failed to close Redis" server.redis_closer s₁ in
      close_with host "closing Kafka publisher" "failed to close Kafka publisher"
        server.kafka_closer s₂

  -- `none` where it does not return.
  unfoldable pub shutdown : Server p S M P → S → Option (Result ⊤ × S)
  shutdown server s = do
    s' ← stop_grpc host server.grpc_server (host.log_info "shutting down server" s)
    let (r, s'') = host.shutdown_http s'
    some (r, close_all server s'')

  -- The goroutine of `Run`.
  abbrev pub start_logged : ((S → S) → S → S) → Server p S M P → S → S
  start_logged background server s = log_failure host "server error" (start background server s)

  -- `Run`: `background` runs a goroutine, `wait` waits for a signal.
  abbrev pub run_started :
      ((S → S) → S → S) → (S → S) → Result (Server p S M P) × S → Option (Outcome × S)
  run_started background wait (err e, s) = some (exited e, s)
  run_started background wait (ok server, s) = do
    (r, s') ← shutdown server (wait (background (start_logged background server) s))
    some (finished r, s')

  unfoldable pub run :
      (Config → Action S (Server p S M P))
      → ((S → S) → S → S)
      → (S → S)
      → Config
      → S
      → Option (Outcome × S)
  unfolding start shutdown
  run start_up background wait cfg s = run_started background wait (start_up cfg s)

  unfoldable pub main :
      (Config → Action S (Server p S M P))
      → ((S → S) → S → S)
      → (S → S)
      → String
      → (String → String)
      → S
      → Option (ℕ × S)
  unfolding run load_from_env
  main start_up background wait version env s = do
    let cfg = load_from_env env
    (outcome, s') ←
        run start_up background wait (record cfg { app = record cfg.app { version = version } }) s
    some (exit_code outcome, s')
