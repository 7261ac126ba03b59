-- ===== src/Outside.antt =====
-- A server that the program calls over the network: PostgreSQL, Redis or Kafka. It holds some
-- content, and each call to it may fail, with or without having had its effect.
pub mod Keeps
use go_ordersvc.Prelude.{ℕ, suc}
use go_ordersvc.Effect.{Result, ok, err, Action}
use go_ordersvc.Domain.Errors.{Error}

-- What becomes of a call: it runs, it is refused with an error, or it runs and its answer is lost,
-- so that the caller sees an error though the effect is there.
pub data Fault : Type 0 where
  clear : Fault
  refused unacknowledged : Error → Fault

-- The circumstances of one call: `time.Now()` in the caller just before it, the server's clock,
-- what becomes of the call, and what else the server chooses.
pub record Condition (X : Type 0) : Type 0 where
  pub local_now : ℕ
  pub server_now : ℕ
  pub fault : Fault
  pub chosen : X

-- The content, and the circumstances of the calls to come.
pub record Server (D X : Type 0) : Type 0 where
  pub content : D
  pub executed : ℕ
  pub upcoming : ℕ → Condition X

module _ {D X : Type 0} where
  -- How a call ends, by what becomes of it.
  abbrev pub settle : {A : Type 0} → Fault → Server D X → Result (D × A) → Result A × Server D X
  settle clear s (ok (d, a)) = (ok a, record s { content = d })
  settle clear s (err e) = (err e, s)
  settle (refused e) s r = (err e, s)
  settle (unacknowledged e) s (ok (d, a)) = (err e, record s { content = d })
  settle (unacknowledged e) s (err e') = (err e, s)

  abbrev pub next_call : Server D X → Server D X
  next_call s = record s { executed = suc s.executed }

  abbrev pub condition : Server D X → Condition X
  condition s = s.upcoming s.executed

  -- One call.
  unfoldable pub execute : {A : Type 0} → (Condition X → D → Result (D × A)) → Action (Server D X) A
  execute call s = settle (condition s).fault (next_call s) (call (condition s) s.content)
