-- ===== src/Server/Failures.antt =====
-- How `NewServer` ends the process: the error that is logged says which step failed.
use go_ordersvc.Prelude.{⊤, String, ◌≡◌, refl, ap, sym, subst, inl, inr}
use go_ordersvc.Platform.{Platform}
use go_ordersvc.Effect.{Result, ok, err, Action, Result-cases}
use go_ordersvc.Domain.Errors.{Error, wrapped}
use go_ordersvc.Http.Router.{Chi, Endpoint}
use go_ordersvc.Connections.{Drivers, new_client, options}
use go_ordersvc.Config.{Config}
use go_ordersvc.Server.{World}
use go_ordersvc.Server.Startup.{
  open_database, start_up, assemble, redis_config, database_url, limited,
}

-- What is known of a result, by how it ended.
abbrev pub Ended : {A : Type 0} → (A → Type 0) → (Error → Type 0) → Result A → Type 0
Ended P Q (ok a) = P a
Ended P Q (err e) = Q e

module _ {p : Platform} (drivers : Drivers (World p)) (info : String → World p → World p)
    (cfg : Config) (w : World p) where
  -- The steps of the start up to each connection, from the world `w`: what `ParseConfig` makes of the
  -- database's URL, the pool that was opened with it, and the world in which Redis is called.
  abbrev pub Parsed : drivers.PoolConfig → Type 0
  Parsed parsed = drivers.parse_config (database_url cfg) ≡ ok parsed

  abbrev pub Opened : drivers.Pool → World p → Type 0
  Opened pool w₁ =
      (parsed : drivers.PoolConfig) × Parsed parsed
      × (drivers.open_configured (limited drivers cfg parsed) w ≡ (ok pool, w₁))

  abbrev pub Reached : drivers.Pool → World p → Type 0
  Reached pool w₂ = (w₁ : World p) × Opened pool w₁ × (drivers.ping_pool pool w₁ ≡ (ok tt, w₂))

  abbrev pub RedisPing : World p → Result ⊤ × World p
  RedisPing w₂ =
      let (client, w₃) =
        drivers.open_client (options (redis_config cfg)) (info "connected to PostgreSQL" w₂) in
      drivers.ping_client client w₃

  -- An error with which the process ends while it starts: the text names the step that failed, the
  -- error inside is the one of that step, and the steps before it succeeded.
  pub data StartFailure : Error → Type 0 where
    bad_config :
        (e : Error)
        → drivers.parse_config (database_url cfg) ≡ err e
        → StartFailure (wrapped "failed to parse database config" e)
    no_pool :
        (parsed : drivers.PoolConfig) (e : Error)
        → Parsed parsed
        → (drivers.open_configured (limited drivers cfg parsed) w).0 ≡ err e
        → StartFailure (wrapped "failed to create database pool" e)
    no_database :
        (pool : drivers.Pool) (w₁ : World p) (e : Error)
        → Opened pool w₁
        → (drivers.ping_pool pool w₁).0 ≡ err e
        → StartFailure (wrapped "failed to ping database" e)
    no_redis :
        (pool : drivers.Pool) (w₂ : World p) (e : Error)
        → Reached pool w₂
        → (RedisPing w₂).0 ≡ err e
        → StartFailure (wrapped "failed to connect to Redis" (wrapped "failed to ping redis" e))

  -- The start succeeded: all four steps did.
  abbrev pub AllReached : Type 0
  AllReached = (pool : drivers.Pool) × (w₂ : World p) × Reached pool w₂ × ((RedisPing w₂).0 ≡ ok tt)

-- A result and the state that it came with.
with_state : {S A : Type 0} (x : Result A × S) (a : A) → x.0 ≡ ok a → x ≡ (ok a, x.1)
with_state x a h = ap (λ r. (r, x.1)) h

module _ {p : Platform} (drivers : Drivers (World p)) (chi : Chi (Endpoint p (World p)))
    (close_writer : Action (World p) ⊤) where
  -- NewServer succeeds only if the four steps do: parsing the configuration of the database, opening
  -- the pool, the ping of the database and the ping of Redis. Otherwise the process ends with an error
  -- that names the first step that failed, around the very error of that step.
  pub start_up-StartFailure :
      (info : String → World p → World p) (cfg : Config) (w : World p)
      → Ended
          (λ _. AllReached drivers info cfg w)
          (StartFailure drivers info cfg w)
          (start_up drivers chi close_writer info cfg w).0
  unfolding start_up open_database new_client
  start_up-StartFailure info cfg w = elim (Result-cases (drivers.parse_config (database_url cfg))) [
    | inr (e, bad) ↦ rw (bad, start_up, open_database) (bad_config e bad)
    | inl (parsed, good) ↦
        let open_pool = drivers.open_configured (limited drivers cfg parsed) in
        let w₁ = (open_pool w).1 in
        elim (Result-cases (open_pool w).0) [
          | inr (e, bad) ↦ rw (good, start_up, open_database, bad) (no_pool parsed e good bad)
          | inl (pool, at) ↦
              let opened : Opened drivers info cfg w pool w₁ =
                (parsed, good, with_state (open_pool w) pool at) in
              let w₂ = (drivers.ping_pool pool w₁).1 in
              elim (Result-cases (drivers.ping_pool pool w₁).0) [
                | inr (e, bad) ↦
                    rw (good, start_up, open_database, at, bad) (no_database pool w₁ e opened bad)
                | inl (_, alive) ↦
                    let reached : Reached drivers info cfg w pool w₂ =
                      (w₁, opened, with_state (drivers.ping_pool pool w₁) tt alive) in
                    elim (Result-cases (RedisPing drivers info cfg w w₂).0) [
                      | inr (e, bad) ↦
                          rw (good, start_up, open_database, at, alive, new_client, bad)
                            (no_redis pool w₂ e reached bad)
                      | inl (_, there) ↦
                          let client =
                            (drivers.open_client (options (redis_config cfg))
                              (info "connected to PostgreSQL" w₂)).0 in
                          let done : (start_up drivers chi close_writer info cfg w).0
                              ≡ ok (assemble drivers chi close_writer cfg pool client) =
                            rw (good, start_up, open_database, at, alive, new_client, there) refl in
                          subst
                            (Ended (λ _. AllReached drivers info cfg w)
                              (StartFailure drivers info cfg w))
                            (sym done) (pool, w₂, reached, there)
                    ]
              ]
        ]
  ]
