-- ===== src/Repository/Abstract.antt =====
-- What the repository promises, without tables and statements: a store that has at most one row
-- for an id, and the methods of internal/repository/postgres/order_repository_postgres.go as
-- changes of it. The store is reached over the same network, so that a call of it meets the
-- same faults.
pub mod Lookup
pub mod Statements
pub mod Refinement
pub mod Clients
use go_ordersvc.Prelude.{
  ℕ, zero, suc, ⊤, Bool, not, ◌&&◌, String, Option, none, some, if◌then◌else◌, is_none,
}
use go_ordersvc.Prelude.Int.{ℤ, pos, ◌+ℤ◌, eqb_ℤ, int64}
use go_ordersvc.Json.{Json, Elems, arr}
use go_ordersvc.Json.Items.{marshal_items}
use go_ordersvc.Platform.{Platform}
use go_ordersvc.Effect.{Result, ok, err, Action, pure, throw, fail, ◌>>=◌, ◌>>◌}
use go_ordersvc.Outside.{Condition, Server, execute}
use go_ordersvc.Domain.Errors.{order_not_found, concurrent_modification}
use go_ordersvc.Domain.Order.{Order}
use go_ordersvc.Repository.Database.{Row, RowOrder, is_live}
use go_ordersvc.Repository.Postgres.{
  json_error, bad_uuid, bad_column, bad_parameter, takes_parameters, duplicate_key, inserted_row,
  updated_row, deleted_row, read_order,
}

module _ (p : Platform) where
  abbrev pub Store : Type 0
  Store = p.UUID → Option (Row p)

  abbrev pub StoreServer : Type 0
  StoreServer = Server Store (RowOrder p)

  abbrev pub StoreCall : Type 0 → Type 0
  StoreCall A = Condition (RowOrder p) → Store → Result (Store × A)

-- A constraint of the store may refuse the change.
abbrev pub refuse_none : {A : Type 0} → Option A → Result A
refuse_none none = err bad_column
refuse_none (some a) = ok a

module _ {p : Platform} where
  open p use {UUID, uuid_eq, uuid_string, column_uuid}

  abbrev pub put : Row p → Store p → Store p
  put r f u = if uuid_eq r.id u then some r else f u

  abbrev pub only : (Row p → Bool) → Option (Row p) → Option (Row p)
  only test none = none
  only test (some r) = if test r then some r else none

  -- The row, if it passes the test, is changed; and how many were.
  abbrev pub change_row : (Row p → Option (Row p)) → Option (Row p) → Store p → Option (Store p × ℕ)
  change_row change none f = some (f, 0)
  change_row change (some r) f = elim (change r) [ none ↦ none | some r' ↦ some (put r' f, 1) ]

  abbrev pub change_at :
      UUID → (Row p → Bool) → (Row p → Option (Row p)) → Store p → Option (Store p × ℕ)
  change_at u test change f = change_row change (only test (f u)) f

  abbrev pub with_uuid :
      {A : Type 0}
      → String
      → (UUID → Store p → Result (Store p × A))
      → Store p
      → Result (Store p × A)
  with_uuid id act f = elim (column_uuid id) [ none ↦ err bad_uuid | some u ↦ act u f ]

  abbrev pub insert_new : Order p → Json p.Float64 → StoreCall p ⊤
  insert_new o items c f = elim (inserted_row o items) [
    | none ↦ err bad_column
    | some r ↦ if is_none (f o.id) then ok (put r f, tt) else err duplicate_key
  ]

  abbrev pub find_live : String → StoreCall p (Option (Row p))
  find_live id c f = with_uuid id (λ u g. ok (g, only is_live (g u))) f

  abbrev pub has : String → StoreCall p Bool
  has id c f = with_uuid id (λ u g. ok (g, not (is_none (g u)))) f

  -- Compare and swap, where the order can be sent.
  abbrev pub at_version : ℤ → Row p → Bool
  at_version v r = eqb_ℤ r.version v && is_live r

  abbrev pub swap : Order p → Json p.Float64 → StoreCall p ℕ
  swap o items c f =
      if takes_parameters o items
      then refuse_none (change_at o.id (at_version o.version) (updated_row o items c.server_now) f)
      else err bad_parameter

  abbrev pub mark_deleted : String → StoreCall p ℕ
  mark_deleted id c f =
      with_uuid id
        (λ u g. refuse_none (change_at u is_live (deleted_row c.local_now c.server_now) g)) f

  abbrev pub add_items : Order p → Option (Elems p.Float64) → Action (StoreServer p) (Order p)
  add_items o none = fail json_error
  add_items o (some items) =
      let new : Order p = record o { version = pos 1 } in
      execute (insert_new new (arr items)) >> pure new

  abbrev pub add : Order p → Action (StoreServer p) (Order p)
  add o = add_items o (marshal_items p o.items)

  abbrev pub answer : Option (Row p) → Action (StoreServer p) (Option (Order p))
  answer none s = (ok none, s)
  answer (some r) s = elim (read_order r) [ ok o ↦ (ok (some o), s) | err e ↦ (err e, s) ]

  abbrev pub look_up : String → Action (StoreServer p) (Option (Order p))
  look_up id = execute (find_live id) >>= answer

  abbrev pub refuse : Bool → Action (StoreServer p) (Order p)
  refuse exists = if exists then throw concurrent_modification else throw order_not_found

  abbrev pub swapped : Order p → ℕ → Action (StoreServer p) (Order p)
  swapped o zero = execute (has (uuid_string o.id)) >>= refuse
  swapped o (suc n) = pure (record o { version = int64 (o.version +ℤ pos 1) })

  abbrev pub compare_items : Order p → Option (Elems p.Float64) → Action (StoreServer p) (Order p)
  compare_items o none = fail json_error
  compare_items o (some items) = execute (swap o (arr items)) >>= swapped o

  abbrev pub compare_and_swap : Order p → Action (StoreServer p) (Order p)
  compare_and_swap o = compare_items o (marshal_items p o.items)

  abbrev pub removed : ℕ → Action (StoreServer p) ⊤
  removed zero = throw order_not_found
  removed (suc n) = pure tt

  abbrev pub remove : String → Action (StoreServer p) ⊤
  remove id = execute (mark_deleted id) >>= removed
