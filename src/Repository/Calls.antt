-- ===== src/Repository/Calls.antt =====
-- The calls of the repository as steps of the table, in any order and by any number of clients.
use go_ordersvc.Prelude.{String, List, [], ◌∷◌, some, ◌≡◌}
use go_ordersvc.Platform.{Platform}
use go_ordersvc.Domain.Order.{Order}
use go_ordersvc.Repository.Interface.{ListOptions}
use go_ordersvc.Repository.Database.{Database, Row, select_first}
use go_ordersvc.Repository.Postgres.{create, find_by_id, update, delete}
use go_ordersvc.Repository.Listing.{list, find_by_customer_id}
use go_ordersvc.Repository.Rows.{has_id}
use go_ordersvc.Repository.History.{Follows}
use go_ordersvc.Repository.Table.{IsTable}
use go_ordersvc.Repository.Develops.{Develops, Develops-refl, Develops-trans}
use go_ordersvc.Repository.Methods.{
  find_by_id-Develops, create-Develops, update-Develops, delete-Develops, list_where-Develops,
}

module _ (p : Platform) where
  -- A call of the repository by some client.
  pub data Call : Type 0 where
    create_call update_call : Order p → Call
    find_call delete_call : String → Call
    list_call : ListOptions → Call
    customer_call : String → ListOptions → Call

module _ {p : Platform} where
  abbrev pub run_call : Call p → Database p → Database p
  run_call (create_call o) db = (create o db).1
  run_call (update_call o) db = (update o db).1
  run_call (find_call id) db = (find_by_id id db).1
  run_call (delete_call id) db = (delete id db).1
  run_call (list_call opts) db = (list opts db).1
  run_call (customer_call customer_id opts) db = (find_by_customer_id customer_id opts db).1

  abbrev pub run_calls : List (Call p) → Database p → Database p
  run_calls [] db = db
  run_calls (call ∷ calls) db = run_calls calls (run_call call db)

  run_call-Develops :
      (call : Call p) (db : Database p) → Develops db.content (run_call call db).content
  unfolding list find_by_customer_id
  run_call-Develops (create_call o) db = create-Develops o db
  run_call-Develops (update_call o) db = update-Develops o db
  run_call-Develops (find_call id) db = find_by_id-Develops id db
  run_call-Develops (delete_call id) db = delete-Develops id db
  run_call-Develops (list_call opts) db = list_where-Develops _ _ opts db
  run_call-Develops (customer_call customer_id opts) db = list_where-Develops _ _ opts db

  -- Under any calls of any clients, in any order and with any failures, no row of the table is
  -- lost, a row that has changed has a higher version than before, and the primary key and the
  -- checks on status and version stay met.
  pub run_calls-Develops :
      (calls : List (Call p)) (db : Database p) → Develops db.content (run_calls calls db).content
  run_calls-Develops [] db = Develops-refl db.content
  run_calls-Develops (call ∷ calls) db =
      Develops-trans db.content (run_call call db).content
        (run_calls calls (run_call call db)).content (run_call-Develops call db)
        (run_calls-Develops calls (run_call call db))

  -- A table that meets its constraints still meets them after any calls of any clients, in any order
  -- and with any failures, and a row that was there is there still: as it was, or, where it was live,
  -- with a higher version.
  pub run_calls-keeps :
      (calls : List (Call p)) (db : Database p) (id : p.UUID) (r : Row p)
      → IsTable db.content
      → select_first (has_id id) db.content ≡ some r
      → IsTable (run_calls calls db).content
        × ((r' : Row p) × (select_first (has_id id) (run_calls calls db).content ≡ some r')
            × Follows r r')
  run_calls-keeps calls db id r valid found =
      let (progress, keeps) = run_calls-Develops calls db in (keeps valid, progress id r found)
