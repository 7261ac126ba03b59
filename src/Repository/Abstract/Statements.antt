-- ===== src/Repository/Abstract/Statements.antt =====
-- Each statement of the repository acts on the table as the call of the store does.
use go_ordersvc.Prelude.{
  ℕ, Bool, not, String, Option, none, some, List, ◌≡◌, refl, ◌∙◌, inl, inr, ap, Option-cases,
  Bool-cases, is_none,
}
use go_ordersvc.Json.{Elems, arr, Json}
use go_ordersvc.Platform.{Platform}
use go_ordersvc.Effect.{Result, ok, err}
use go_ordersvc.Outside.{
  Fault, clear, refused, unacknowledged, Condition, settle, condition, execute, next_call,
}
use go_ordersvc.Domain.Order.{Order}
use go_ordersvc.Repository.Database.{Row, RowOrder, Database, is_live, select_first, update_where}
use go_ordersvc.Repository.Postgres.{
  insert_order, inserted_row, query_row, live_at, exec_update, updated_row, deleted_row, bad_column,
  update_statement, takes_parameters, delete_statement,
}
use go_ordersvc.Repository.Table.{IsTable}
use go_ordersvc.Repository.History.{Bumps, updated_row-Bumps, deleted_row-Bumps}
use go_ordersvc.Repository.Abstract.{
  Store, StoreServer, StoreCall, change_at, refuse_none, insert_new, find_live, has, swap,
  mark_deleted, with_uuid, at_version,
}
use go_ordersvc.Repository.Abstract.Lookup.{
  lookup, has_id_and, select_first-lookup, update_where-change_at, as_store,
}

module _ {p : Platform} where
  open p use {UUID, uuid_eq, column_uuid}

  -- The store that a database holds.
  abbrev pub as_server : Database p → StoreServer p
  as_server db = record {
    content = lookup db.content;
    executed = db.executed;
    upcoming = db.upcoming;
  }

  module _ {A : Type 0} where
    abbrev pub store_result : Result (List (Row p) × A) → Result (Store p × A)
    store_result (ok (rows, a)) = ok (lookup rows, a)
    store_result (err e) = err e

    -- A statement on a table that meets its constraints is the call of the store.
    abbrev pub Implements :
        (Condition (RowOrder p) → List (Row p) → Result (List (Row p) × A)) → StoreCall p A → Type 0
    Implements statement call =
        (c : Condition (RowOrder p)) (rows : List (Row p))
        → IsTable rows
        → call c (lookup rows) ≡ store_result (statement c rows)

    settle-as_server :
        (f : Fault) (db : Database p) (r : Result (List (Row p) × A))
        → settle f (as_server db) (store_result r)
          ≡ ((settle f db r).0, as_server (settle f db r).1)
    settle-as_server clear db (ok (rows, a)) = refl
    settle-as_server clear db (err e) = refl
    settle-as_server (refused e) db r = refl
    settle-as_server (unacknowledged e) db (ok (rows, a)) = refl
    settle-as_server (unacknowledged e) db (err e') = refl

    pub execute-as_server :
        (statement : Condition (RowOrder p) → List (Row p) → Result (List (Row p) × A))
        (call : StoreCall p A) (db : Database p)
        → Implements statement call
        → IsTable db.content
        → execute call (as_server db)
          ≡ ((execute statement db).0, as_server (execute statement db).1)
    unfolding execute
    execute-as_server statement call db same valid =
        ap (settle (condition db).fault (next_call (as_server db)))
          (same (condition db) db.content valid)
        ∙ settle-as_server (condition db).fault (next_call db) (statement (condition db) db.content)

  pub insert_order-Implements :
      (o : Order p) (items : Json p.Float64)
      → Implements (insert_order o items) (insert_new o items)
  insert_order-Implements o items c rows valid = elim (Option-cases (inserted_row o items)) [
    | inl bad ↦ rw (bad, insert_new, insert_order) refl
    | inr (r, made) ↦ elim (Option-cases (lookup rows o.id)) [
      | inl new ↦ rw (made, new, insert_new, insert_order) refl
      | inr (old, taken) ↦ rw (made, taken, insert_new, insert_order) refl
    ]
  ]

  module _ (id : String) where
    pub find-Implements :
        Implements (query_row id (λ u. select_first (live_at u))) (find_live {p = p} id)
    find-Implements c rows valid = elim (Option-cases (column_uuid id)) [
      | inl bad ↦ rw (bad, find_live, with_uuid) refl
      | inr (u, good) ↦
          rw (good, find_live, with_uuid, select_first-lookup u is_live rows valid) refl
    ]

    pub exists-Implements :
        Implements
          (query_row id (λ u rows. not (is_none (select_first (λ r. uuid_eq r.id u) rows))))
          (has {p = p} id)
    exists-Implements c rows valid = elim (Option-cases (column_uuid id)) [
      | inl bad ↦ rw (bad, has, with_uuid) refl
      | inr (u, good) ↦ rw (good, has, with_uuid) refl
    ]

  refuse-as_store :
      (done : Option (List (Row p) × ℕ))
      → refuse_none (as_store done)
        ≡ store_result (elim done [ none ↦ err bad_column | some d ↦ ok d ])
  refuse-as_store none = refl
  refuse-as_store (some d) = refl

  exec_update-store :
      (u : UUID) (test : Row p → Bool) (change : Row p → Option (Row p)) (rows : List (Row p))
      → Bumps change
      → IsTable rows
      → refuse_none (change_at u test change (lookup rows))
        ≡ store_result (exec_update (has_id_and u test) change rows)
  exec_update-store u test change rows bumps valid =
      ap refuse_none (update_where-change_at u test change (λ r r' c. (bumps r r' c).0) rows valid)
      ∙ refuse-as_store (update_where (has_id_and u test) change rows)

  pub update-Implements :
      (o : Order p) (items : Elems p.Float64)
      → Implements (update_statement o items) (swap o (arr items))
  update-Implements o items c rows valid = elim (Bool-cases (takes_parameters o (arr items))) [
    | inl taken ↦
        rw (taken, swap, update_statement)
          (exec_update-store o.id (at_version o.version) (updated_row o (arr items) c.server_now)
            rows (updated_row-Bumps o (arr items) c.server_now) valid)
    | inr not_taken ↦ rw (not_taken, swap, update_statement) refl
  ]

  pub delete-Implements : (id : String) → Implements (delete_statement id) (mark_deleted {p = p} id)
  delete-Implements id c rows valid = elim (Option-cases (column_uuid id)) [
    | inl bad ↦ rw (bad, mark_deleted, delete_statement, with_uuid) refl
    | inr (u, good) ↦
        rw (good, mark_deleted, delete_statement, with_uuid)
          (exec_update-store u is_live (deleted_row c.local_now c.server_now) rows
            (deleted_row-Bumps c.local_now c.server_now) valid)
  ]
