-- ===== src/Repository/Creation.antt =====
-- A new order can be read back.
use go_ordersvc.Prelude.{suc, ⊤, true, Option, none, some, List, ◌∷◌, ◌≡◌, refl, ◌∙◌, arith, ap}
use go_ordersvc.Prelude.Int.{pos}
use go_ordersvc.Json.{Json, Elems, arr}
use go_ordersvc.Json.Items.{marshal_items, unmarshal_items, unmarshal-marshal}
use go_ordersvc.Platform.{Platform}
use go_ordersvc.Effect.{Result, ok, pure, >>=-eq-ok}
use go_ordersvc.Outside.{clear, condition, execute}
use go_ordersvc.Outside.Keeps.{execute-eq-ok, execute-clear, condition-execute}
use go_ordersvc.Domain.Order.{Order}
use go_ordersvc.Repository.Database.{Row, Database, select_first}
use go_ordersvc.Repository.Postgres.{
  create, find_by_id, create_marshalled, insert_order, inserted_row, read_order, read_found,
  query_row, live_at,
}
use go_ordersvc.Repository.History.{insert_order-eq-ok}

module _ {p : Platform} where
  open p use {
    uuid_eq, uuid_eq_iff, uuid_string, column_uuid, column_varchar, column_decimal, column_time,
  }

  -- The order as `Create` returns it.
  abbrev pub first_version : Order p → Order p
  first_version o = record o { version = pos 1 }

  -- What the table keeps of a new order.
  abbrev pub Stored : Order p → Order p → Type 0
  Stored o stored =
      (stored.id ≡ o.id)
      × (stored.items ≡ o.items)
      × (stored.status ≡ o.status)
      × (stored.version ≡ pos 1)
      × (stored.deleted_at ≡ none)
      × (column_varchar o.customer_id ≡ some stored.customer_id)
      × (column_decimal o.total ≡ some stored.total)
      × (stored.created_at ≡ column_time o.created_at)
      × (stored.updated_at ≡ column_time o.updated_at)

  -- The order that a row is read into, where the row's items are the order's.
  abbrev order_of : Row p → Order p → Order p
  order_of r o = record {
    id = r.id;
    customer_id = r.customer_id;
    items = o.items;
    status = r.status;
    total = r.total;
    version = r.version;
    created_at = r.created_at;
    updated_at = r.updated_at;
    deleted_at = r.deleted_at;
  }

  inserted_row-parts :
      (o : Order p) (items : Json p.Float64) (r : Row p)
      → inserted_row (first_version o) items ≡ some r
      → (r.items ≡ items) × Stored o (order_of r o)
  inserted_row-parts o items r h = ground arith

  live_inserted :
      (o : Order p) (items : Json p.Float64) (r : Row p)
      → inserted_row (first_version o) items ≡ some r
      → live_at o.id r ≡ true
  live_inserted o items r h = ground (arith, uuid_eq_iff o.id o.id)

  read_order_of :
      (r : Row p) (o : Order p)
      → unmarshal_items p r.items ≡ some o.items
      → read_order r ≡ ok (order_of r o)
  unfolding read_order
  read_order_of r o h = rw (h, read_order) refl

  inserted_row-Stored :
      (o : Order p) (items : Elems p.Float64) (r : Row p)
      → marshal_items p o.items ≡ some items
      → inserted_row (first_version o) (arr items) ≡ some r
      → (stored : Order p) × (read_order r ≡ ok stored) × Stored o stored × (live_at o.id r ≡ true)
  unfolding read_order unmarshal_items
  inserted_row-Stored o items r m h =
      let (at_items, parts) = inserted_row-parts o (arr items) r h in
      (
        order_of r o,
        read_order_of r o (ap (unmarshal_items p) at_items ∙ unmarshal-marshal p o.items items m),
        parts,
        live_inserted o (arr items) r h,
      )

  abbrev first_live : p.UUID → List (Row p) → Option (Row p)
  first_live u = select_first (live_at u)

  -- A read by id that meets no fault, of a table with the row in front.
  find_in_front :
      (o stored : Order p) (r : Row p) (rows : List (Row p)) (db : Database p)
      → (condition db).fault ≡ clear
      → db.content ≡ r ∷ rows
      → live_at o.id r ≡ true
      → read_order r ≡ ok stored
      → (find_by_id (uuid_string o.id) db).0 ≡ ok (some stored)
  unfolding find_by_id
  find_in_front o stored r rows db calm front hit read =
      let call = query_row (uuid_string o.id) first_live in
      let answer : call (condition db) db.content ≡ ok (db.content, some r) =
        rw (p.column_uuid-string o.id) (rw front (rw hit refl)) in
      rw (execute-clear call db db.content (some r) calm answer) (rw (read, read_found) refl)

  find-create_marshalled :
      (o saved : Order p) (items : Option (Elems p.Float64)) (db : Database p)
      → marshal_items p o.items ≡ items
      → (create_marshalled o items db).0 ≡ ok saved
      → (db.upcoming (suc db.executed)).fault ≡ clear
      → (saved ≡ first_version o)
        × ((stored : Order p) × ((find_by_id (uuid_string o.id) (create_marshalled o items db).1).0
              ≡ ok (some stored))
            × Stored o stored)
  find-create_marshalled o saved none db m h calm = cc
  find-create_marshalled o saved (some items) db m h calm =
      let insert = insert_order (first_version o) (arr items) in
      let (_, ran, ended, same) =
        >>=-eq-ok (execute insert) (λ (_ : ⊤). pure (first_version o)) db h in
      let db' = (execute insert db).1 in
      let (r, made, front, new) =
        insert_order-eq-ok (first_version o) (arr items) (condition db) db.content db'.content
          (execute-eq-ok insert db tt ran) in
      let (stored, read, kept, hit) = inserted_row-Stored o items r m made in
      (
        ground arith,
        (
          stored,
          rw same (
              find_in_front o stored r db.content db' (rw (condition-execute insert db) calm) front
                hit read),
          kept,
        ),
      )

  create_marshalled-condition :
      (o saved : Order p) (items : Option (Elems p.Float64)) (db : Database p)
      → (create_marshalled o items db).0 ≡ ok saved
      → condition (create_marshalled o items db).1 ≡ db.upcoming (suc db.executed)
  create_marshalled-condition o saved none db h = cc
  create_marshalled-condition o saved (some items) db h =
      let insert = insert_order (first_version o) (arr items) in
      let (_, _, _, same) = >>=-eq-ok (execute insert) (λ (_ : ⊤). pure (first_version o)) db h in
      ap (λ (x : Result (Order p) × Database p). condition x.1) same ∙ condition-execute insert db

  -- A successful `Create` was one statement.
  pub create-condition :
      (o saved : Order p) (db : Database p)
      → (create o db).0 ≡ ok saved
      → condition (create o db).1 ≡ db.upcoming (suc db.executed)
  unfolding create
  create-condition o saved db h = create_marshalled-condition o saved (marshal_items p o.items) db h

  -- A read of a new order's id right after a successful `Create` finds the order with its items,
  -- its status and version 1, and with the customer, the total and the times as the columns hold
  -- them, provided that the statement of the read meets no fault.
  pub find-create :
      (o saved : Order p) (db : Database p)
      → (create o db).0 ≡ ok saved
      → (db.upcoming (suc db.executed)).fault ≡ clear
      → (saved ≡ first_version o)
        × ((stored : Order p) × ((find_by_id (uuid_string o.id) (create o db).1).0
              ≡ ok (some stored))
            × Stored o stored)
  unfolding create
  find-create o saved db h calm =
      find-create_marshalled o saved (marshal_items p o.items) db refl h calm
