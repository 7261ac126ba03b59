-- ===== src/Repository/Reads.antt =====
-- What a successful read of an order says of the table.
use go_ordersvc.Prelude.{
  true, String, Option, none, some, List, ◌≡◌, refl, ◌∙◌, inl, inr, arith, Option-cases,
}
use go_ordersvc.Platform.{Platform}
use go_ordersvc.Effect.{ok, >>=-eq-ok}
use go_ordersvc.Outside.{Condition, condition, execute}
use go_ordersvc.Outside.Keeps.{execute-eq-ok}
use go_ordersvc.Domain.Order.{Order}
use go_ordersvc.Repository.Database.{Row, RowOrder, Database, select_first}
use go_ordersvc.Repository.Postgres.{find_by_id, read_order, read_found, query_row, live_at}
use go_ordersvc.Repository.Table.{select_first_passes}

module _ {p : Platform} where
  open p use {UUID, uuid_eq, uuid_eq_iff, column_uuid}

  -- The order that a row is read into has the row's values.
  abbrev pub ReadFrom : Row p → Order p → Type 0
  ReadFrom r o =
      (o.id ≡ r.id)
      × (o.version ≡ r.version)
      × (o.status ≡ r.status)
      × (o.customer_id ≡ r.customer_id)
      × (o.deleted_at ≡ r.deleted_at)

  pub read_order-ReadFrom : (r : Row p) (o : Order p) → read_order r ≡ ok o → ReadFrom r o
  unfolding read_order
  read_order-ReadFrom r o h = ground arith

  read_found-eq-ok :
      (found : Option (Row p)) (db : Database p) (o : Order p)
      → (read_found found db).0 ≡ ok (some o)
      → (r : Row p) × (found ≡ some r) × (read_order r ≡ ok o)
  read_found-eq-ok none db o h = ground arith
  read_found-eq-ok (some r) db o h = (r, refl, ground arith)

  query_row-eq-ok :
      {A : Type 0} (id : String) (answer : UUID → List (Row p) → A) (c : Condition (RowOrder p))
      (rows rows' : List (Row p)) (a : A)
      → query_row id answer c rows ≡ ok (rows', a)
      → (u : UUID) × (column_uuid id ≡ some u) × (answer u rows ≡ a)
  query_row-eq-ok id answer c rows rows' a h = elim (Option-cases (column_uuid id)) [
    | inl bad ↦ ground arith
    | inr (u, good) ↦ (u, good, ground arith)
  ]

  pub live_at-id : (u : UUID) (r : Row p) → live_at u r ≡ true → r.id ≡ u
  live_at-id u r h = ground (arith, uuid_eq_iff r.id u)

  abbrev first_live : UUID → List (Row p) → Option (Row p)
  first_live u = select_first (live_at u)

  -- A read that finds an order has read a live row of the table.
  pub find_by_id-eq-ok :
      (id : String) (db : Database p) (o : Order p)
      → (find_by_id id db).0 ≡ ok (some o)
      → (r : Row p) × (select_first (live_at r.id) db.content ≡ some r)
        × ReadFrom r o
        × (column_uuid id ≡ some r.id)
  unfolding find_by_id
  find_by_id-eq-ok id db o h =
      let (found, ran, read, _) = >>=-eq-ok (execute (query_row id first_live)) read_found db h in
      let (r, is_row, from) = read_found-eq-ok found _ o read in
      let (u, good, answer) =
        query_row-eq-ok id first_live (condition db) db.content _ found
          (execute-eq-ok (query_row id first_live) db found ran) in
      let at_u : select_first (live_at u) db.content ≡ some r = answer ∙ is_row in
      let same : r.id ≡ u = live_at-id u r (select_first_passes (live_at u) db.content r at_u) in
      (r, rw same at_u, read_order-ReadFrom r o from, rw same good)
