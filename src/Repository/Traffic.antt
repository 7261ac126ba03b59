-- ===== src/Repository/Traffic.antt =====
-- Many clients at the same time: each reads orders, keeps what it has read for as long as it
-- likes, and writes it back. Every statement is a step, so that the requests interleave freely.
pub mod Moves
pub mod Tracking
pub mod Lifecycle
use go_ordersvc.Prelude.{true, String, Option, some, none, List, [], ◌∷◌, ◌≡◌, ◌⊎◌}
use mathlib.Core.List.{Memᴰ}
use go_ordersvc.Platform.{Platform}
use go_ordersvc.Effect.{ok}
use go_ordersvc.Domain.Status.{OrderStatus, pending, can_transition_to}
use go_ordersvc.Domain.Order.{Order}
use go_ordersvc.Repository.Database.{Database}
use go_ordersvc.Repository.Postgres.{find_by_id, update}
use go_ordersvc.Repository.Calls.{
  Call, create_call, update_call, find_call, delete_call, list_call, customer_call, run_call,
}

-- What the service lets a status become: itself, or what CanTransitionTo accepts.
abbrev pub IsAllowed : OrderStatus → OrderStatus → Type 0
IsAllowed s t = (t ≡ s) ⊎ (can_transition_to s t ≡ true)

module _ (p : Platform) where
  -- The database, and the orders that clients have read.
  pub record Traffic : Type 0 where
    pub database : Database p
    pub held : List (Order p)

module _ {p : Platform} where
  -- The calls that do not write an order back: a new order is pending.
  abbrev pub IsPlain : Call p → Type 0
  IsPlain (create_call o) = o.status ≡ pending
  IsPlain (update_call o) = ⊥
  IsPlain (find_call id) = Unit
  IsPlain (delete_call id) = Unit
  IsPlain (list_call opts) = Unit
  IsPlain (customer_call customer_id opts) = Unit

  infix 40 ◌⟹◌
  pub data ◌⟹◌ (s : Traffic p) : Traffic p → Type 0 where
    -- A client reads an order and keeps it.
    reads :
        (id : String) (o : Order p)
        → (find_by_id id s.database).0 ≡ ok (some o)
        → s ⟹ record { database = (find_by_id id s.database).1; held = o ∷ s.held }
    -- A client writes an order that it has read, with its id and its version and an allowed
    -- status; the rest may have changed. The call may fail, or fail though it was carried out.
    writes :
        (o changed : Order p)
        → Memᴰ o s.held
        → changed.id ≡ o.id
        → changed.version ≡ o.version
        → IsAllowed o.status changed.status
        → s ⟹ record s { database = (update changed s.database).1 }
    calls : (call : Call p) → IsPlain call → s ⟹ record s { database = run_call call s.database }

  infix 40 ◌⟹*◌
  pub data ◌⟹*◌ (s : Traffic p) : Traffic p → Type 0 where
    stay : s ⟹* s
    step : (t u : Traffic p) → s ⟹* t → t ⟹ u → s ⟹* u
