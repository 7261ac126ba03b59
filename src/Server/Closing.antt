-- ===== src/Server/Closing.antt =====
-- What `Shutdown` leaves open: nothing, whatever fails.
use go_ordersvc.Prelude.{⊤, String, Option, none, some, ◌≡◌, refl}
use go_ordersvc.Platform.{Platform}
use go_ordersvc.Effect.{Result, ok, err, Action}
use go_ordersvc.Domain.Errors.{Error}
use go_ordersvc.Server.Startup.{Server}
use go_ordersvc.Server.Lifecycle.{
  Host, log_failure, stop_grpc, close_database, close_with, close_all, shutdown,
}

pub data Resource : Type 0 where
  grpc_calls http_listener database_pool redis_client kafka_writer : Resource

module _ {S : Type 0} (Closed : Resource → S → Type 0) where
  -- A step that opens nothing again.
  abbrev pub OpensNothing : (S → S) → Type 0
  OpensNothing step = (x : Resource) (s : S) → Closed x s → Closed x (step s)

  -- A step that closes one resource and opens nothing again, also where it fails.
  abbrev pub Closes : Resource → (S → S) → Type 0
  Closes x step = ((s : S) → Closed x (step s)) × OpensNothing step

  -- Where a server has a part, the resource behind it is closed.
  abbrev pub ClosedIf : {A : Type 0} → Option A → Resource → S → Type 0
  ClosedIf none x s = Unit
  ClosedIf (some _) x s = Closed x s

  module _ (host : Host S) (info : (m : String) → OpensNothing (host.log_info m))
      (error : (m : String) (e : Error) → OpensNothing (host.log_error m e)) where
    log_failure-OpensNothing :
        (m : String) (x : Resource) (e : Result ⊤ × S)
        → Closed x e.1
        → Closed x (log_failure host m e)
    log_failure-OpensNothing m x (ok _, s) closed = closed
    log_failure-OpensNothing m x (err e, s) closed = error m e x s closed

    close_with-Closes :
        (closing failed : String) (x : Resource) (close : Option (Action S ⊤))
        → ((f : Action S ⊤) → close ≡ some f → Closes x (λ s. (f s).1))
        → ((s : S) → ClosedIf close x (close_with host closing failed close s))
          × OpensNothing (close_with host closing failed close)
    close_with-Closes closing failed x none h = (λ s. tt, λ y s closed. closed)
    close_with-Closes closing failed x (some f) h = (
      λ s. log_failure-OpensNothing failed x _ ((h f refl).0 (host.log_info closing s)),
      λ y s closed.
          log_failure-OpensNothing failed y _
            ((h f refl).1 y (host.log_info closing s) (info closing y s closed)),
    )

    close_database-Closes :
        {P : Type 0} (close_pool : P → S → S) (pool : Option P)
        → ((p : P) → Closes database_pool (close_pool p))
        → ((s : S) → ClosedIf pool database_pool (close_database host close_pool pool s))
          × OpensNothing (close_database host close_pool pool)
    close_database-Closes close_pool none h = (λ s. tt, λ y s closed. closed)
    close_database-Closes close_pool (some pool) h =
        (λ s. (h pool).0 _, λ y s closed. (h pool).1 y _ (info _ y s closed))

    ClosedIf-keeps :
        {A : Type 0} (part : Option A) (x : Resource) (step : S → S) (s : S)
        → OpensNothing step
        → ClosedIf part x s
        → ClosedIf part x (step s)
    ClosedIf-keeps none x step s keeps closed = tt
    ClosedIf-keeps (some _) x step s keeps closed = keeps x s closed

    stop_grpc-closes :
        {G : Type 0} (grpc : Option G) (s s' : S)
        → ((s s' : S) → host.graceful_stop s ≡ some s' → Closed grpc_calls s')
        → stop_grpc host grpc s ≡ some s'
        → ClosedIf grpc grpc_calls s'
    stop_grpc-closes none s s' stops h = tt
    stop_grpc-closes (some _) s s' stops h = stops _ s' h

  -- Everything that the server has is closed.
  abbrev pub AllClosed : {p : Platform} {M P : Type 0} → Server p S M P → S → Type 0
  AllClosed server s =
      ClosedIf server.grpc_server grpc_calls s
      × Closed http_listener s
      × ClosedIf server.db_pool database_pool s
      × ClosedIf server.redis_closer redis_client s
      × ClosedIf server.kafka_closer kafka_writer s

  -- Where the GracefulStop of the gRPC server returns, Shutdown returns with the result of shutting
  -- down the HTTP server, and then the calls of gRPC, the HTTP listener, the pool, Redis and Kafka
  -- are closed as far as the server has them, whichever of the steps failed. It is assumed that
  -- each step closes its own resource, also where it fails, and that no step and no log line opens
  -- one again.
  pub shutdown-AllClosed :
      {p : Platform} {M P : Type 0} (host : Host S) (close_pool : P → S → S)
      (server : Server p S M P) (s stopped : S)
      → ((m : String) → OpensNothing (host.log_info m))
      → ((m : String) (e : Error) → OpensNothing (host.log_error m e))
      → ((s s' : S) → host.graceful_stop s ≡ some s' → Closed grpc_calls s')
      → Closes http_listener (λ s. (host.shutdown_http s).1)
      → ((pool : P) → Closes database_pool (close_pool pool))
      → ((f : Action S ⊤) → server.redis_closer ≡ some f → Closes redis_client (λ s. (f s).1))
      → ((f : Action S ⊤) → server.kafka_closer ≡ some f → Closes kafka_writer (λ s. (f s).1))
      → stop_grpc host server.grpc_server (host.log_info "shutting down server" s) ≡ some stopped
      → (s' : S) × (shutdown host close_pool server s ≡ some ((host.shutdown_http stopped).0, s'))
        × AllClosed server s'
  unfolding shutdown
  shutdown-AllClosed host close_pool server s stopped info error stops http pool redis kafka
        returned =
      let s₁ = (host.shutdown_http stopped).1 in
      let (close_db, keep_db) =
        close_database-Closes host info error close_pool server.db_pool pool in
      let (close_redis, keep_redis) =
        close_with-Closes host info error "closing Redis connection" "failed to close Redis"
          redis_client server.redis_closer redis in
      let (close_kafka, keep_kafka) =
        close_with-Closes host info error "closing Kafka publisher"
          "failed to close Kafka publisher" kafka_writer server.kafka_closer kafka in
      let keep : OpensNothing (close_all host close_pool server) =
        λ x t c. keep_kafka x _ (keep_redis x _ (keep_db x t c)) in
      (
        close_all host close_pool server s₁,
        rw returned refl,
        (
          ClosedIf-keeps host info error server.grpc_server grpc_calls _ s₁ keep (
              ClosedIf-keeps host info error server.grpc_server grpc_calls _ stopped http.1
                (stop_grpc-closes host info error server.grpc_server _ stopped stops returned)),
          keep http_listener s₁ (http.0 stopped),
          ClosedIf-keeps host info error server.db_pool database_pool _ _ keep_kafka (
              ClosedIf-keeps host info error server.db_pool database_pool _ _ keep_redis
                (close_db s₁)),
          ClosedIf-keeps host info error server.redis_closer redis_client _ _ keep_kafka
              (close_redis _),
          close_kafka _,
        ),
      )
