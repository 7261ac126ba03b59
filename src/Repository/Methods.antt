-- ===== src/Repository/Methods.antt =====
-- Each method of the repository develops the table, whatever becomes of its statements.
use go_ordersvc.Prelude.{
  ℕ, suc, zero, Bool, String, Option, none, some, List, inl, inr, arith, Option-cases,
}
use go_ordersvc.Prelude.Int.{ℤ, pos}
use go_ordersvc.Json.{Elems, arr}
use go_ordersvc.Json.Items.{marshal_items}
use go_ordersvc.Platform.{Platform}
use go_ordersvc.Effect.{Action, pure, ◌>>=◌}
use go_ordersvc.Outside.{execute}
use go_ordersvc.Outside.Keeps.{Keeps, Keeps->>=, execute-content}
use go_ordersvc.Domain.Order.{Order}
use go_ordersvc.Repository.Interface.{ListOptions}
use go_ordersvc.Repository.Database.{Row, Database}
use go_ordersvc.Repository.Postgres.{
  create, find_by_id, update, delete, execute_update, after_update, execute_delete, after_delete,
  create_marshalled, update_marshalled, query_row, updated_row, deleted_row, insert_order, live_at,
  version_at,
}
use go_ordersvc.Repository.Listing.{list_where}
use go_ordersvc.Repository.History.{NeedsLive, updated_row-Bumps, deleted_row-Bumps}
use go_ordersvc.Repository.Table.{updated_row-KeepsRow, deleted_row-KeepsRow}
use go_ordersvc.Repository.Queries.{
  Same, execute_query-Same, find_by_id-Same, list_where-Same, after_update-Same, after_delete-Same,
}
use go_ordersvc.Repository.Develops.{
  Develops, Develops-refl, Develops-trans, exec_update-Develops, insert_order-Develops,
  update_statement-eq-ok,
}

module _ {p : Platform} where
  open p use {column_uuid, uuid_string}

  Same-Develops : {A : Type 0} (m : Action (Database p) A) → Keeps Same m → Keeps Develops m
  Same-Develops m h db = rw (h db) (Develops-refl db.content)

  module _ {A B : Type 0} where
    chain :
        (m : Action (Database p) A) (f : A → Action (Database p) B)
        → Keeps Develops m
        → ((a : A) → Keeps Develops (f a))
        → Keeps Develops (m >>= f)
    chain = Keeps->>= Develops Develops-trans

  pub execute_query-Develops :
      {A : Type 0} (id : String) (answer : p.UUID → List (Row p) → A)
      → Keeps Develops (execute (query_row id answer))
  execute_query-Develops id answer =
      Same-Develops (execute (query_row id answer)) (execute_query-Same id answer)

  pub find_by_id-Develops : (id : String) → Keeps Develops (find_by_id {p = p} id)
  find_by_id-Develops id = Same-Develops (find_by_id id) (find_by_id-Same id)

  pub list_where-Develops :
      (taken : Bool) (test : Row p → Bool) (opts : ListOptions)
      → Keeps Develops (list_where taken test opts)
  list_where-Develops taken test opts =
      Same-Develops (list_where taken test opts) (list_where-Same taken test opts)

  pub execute_insert-Develops :
      (o : Order p) (items : Elems p.Float64)
      → Keeps Develops (execute (insert_order o (arr items)))
  execute_insert-Develops o items db =
      execute-content Develops Develops-refl (insert_order o (arr items)) db
        λ c rows' a. insert_order-Develops o (arr items) c db.content rows'

  create_marshalled-Develops :
      (o : Order p) (items : Option (Elems p.Float64)) → Keeps Develops (create_marshalled o items)
  create_marshalled-Develops o none = λ db. Develops-refl db.content
  create_marshalled-Develops o (some items) =
      let versioned : Order p = record o { version = pos 1 } in
      chain (execute (insert_order versioned (arr items))) (λ _. pure versioned)
        (execute_insert-Develops versioned items) (λ a db. Develops-refl db.content)

  pub create-Develops : (o : Order p) → Keeps Develops (create o)
  unfolding create
  create-Develops o = create_marshalled-Develops o (marshal_items p o.items)

  version_at-NeedsLive : (u : p.UUID) (v : ℤ) → NeedsLive (version_at {p = p} u v)
  version_at-NeedsLive u v r h = ground arith

  live_at-NeedsLive : (u : p.UUID) → NeedsLive (live_at {p = p} u)
  live_at-NeedsLive u r h = ground arith

  pub execute_update-Develops :
      (o : Order p) (items : Elems p.Float64) → Keeps Develops (execute_update o items)
  execute_update-Develops o items db = execute-content Develops Develops-refl _ db λ c rows' n e.
      exec_update-Develops (version_at o.id o.version) (updated_row o (arr items) c.server_now)
        db.content rows' n (version_at-NeedsLive o.id o.version)
        (updated_row-Bumps o (arr items) c.server_now)
        (updated_row-KeepsRow o (arr items) c.server_now)
        (update_statement-eq-ok o items c db.content rows' n e)

  after_update-Develops : (o : Order p) (n : ℕ) → Keeps Develops (after_update o n)
  after_update-Develops o zero = Same-Develops (after_update o zero) (after_update-Same o)
  after_update-Develops o (suc n) = λ db. Develops-refl db.content

  update_marshalled-Develops :
      (o : Order p) (items : Option (Elems p.Float64)) → Keeps Develops (update_marshalled o items)
  update_marshalled-Develops o none = λ db. Develops-refl db.content
  update_marshalled-Develops o (some items) =
      chain (execute_update o items) (after_update o) (execute_update-Develops o items)
        (after_update-Develops o)

  pub update-Develops : (o : Order p) → Keeps Develops (update o)
  unfolding update
  update-Develops o = update_marshalled-Develops o (marshal_items p o.items)

  pub execute_delete-Develops : (id : String) → Keeps Develops (execute_delete {p = p} id)
  execute_delete-Develops id db = execute-content Develops Develops-refl _ db λ c rows' n e.
      elim (Option-cases (column_uuid id)) [
        | inl bad ↦ ground arith
        | inr (u, good) ↦
            exec_update-Develops (live_at u) (deleted_row c.local_now c.server_now) db.content rows'
              n (live_at-NeedsLive u) (deleted_row-Bumps c.local_now c.server_now)
              (deleted_row-KeepsRow c.local_now c.server_now) (ground arith)
      ]

  pub delete-Develops : (id : String) → Keeps Develops (delete {p = p} id)
  unfolding delete
  delete-Develops id =
      chain (execute_delete id) after_delete (execute_delete-Develops id)
        λ n. Same-Develops (after_delete n) (after_delete-Same n)
