-- ===== src/Repository/Listing.antt =====
-- `List` and `FindByCustomerID` of internal/repository/postgres/order_repository_postgres.go, and
-- the repository as a whole.
use go_ordersvc.Prelude.{
  Bool, true, not, ◌&&◌, ◌||◌, String, Option, none, some, List, [], ◌∷◌, if◌then◌else◌, str_eq,
  length, select, take, drop,
}
use go_ordersvc.Prelude.Int.{ℤ, pos, ltb_ℤ, pos_part}
use go_ordersvc.Outside.{Condition, execute}
use go_ordersvc.Platform.{Platform}
use go_ordersvc.Effect.{Result, ok, err, Action, ◌>>=◌}
use go_ordersvc.Domain.Status.{OrderStatus}
use go_ordersvc.Domain.Order.{Order}
use go_ordersvc.Repository.Interface.{ListOptions, OrderRepository}
use go_ordersvc.Repository.Database.{Row, RowOrder, Database, is_live}
use go_ordersvc.Repository.Postgres
use go_ordersvc.Repository.Postgres.{bad_parameter, negative_range, read_order}

-- Whether the server takes the status, where one is given.
abbrev pub takes_status : Platform → Option OrderStatus → Bool
takes_status p none = true
takes_status p (some status) = p.column_text status

module _ {p : Platform} where
  -- ` AND status = $n`, where a status is given.
  abbrev pub has_status : Option OrderStatus → Row p → Bool
  has_status none r = true
  has_status (some status) r = str_eq r.status status

  -- `WHERE deleted_at IS NULL`
  abbrev pub listed : ListOptions → Row p → Bool
  listed opts r = is_live r && has_status opts.status r

  -- `WHERE customer_id = $1 AND deleted_at IS NULL`
  abbrev pub listed_for : String → ListOptions → Row p → Bool
  listed_for customer_id opts r = str_eq r.customer_id customer_id && listed opts r

  -- `SELECT COUNT(*)`, by whether the server takes the texts among its parameters.
  abbrev pub count_where :
      Bool → (Row p → Bool) → Condition (RowOrder p) → List (Row p) → Result (List (Row p) × ℤ)
  count_where taken test c rows =
      if taken then ok (rows, pos (length (select test rows))) else err bad_parameter

  -- `ORDER BY created_at DESC LIMIT … OFFSET …`
  abbrev pub select_page :
      Bool
      → (Row p → Bool)
      → ListOptions
      → Condition (RowOrder p)
      → List (Row p)
      → Result (List (Row p) × List (Row p))
  select_page taken test opts c rows =
      if not taken
      then err bad_parameter
      else if ltb_ℤ opts.limit (pos 0) || ltb_ℤ opts.offset (pos 0)
      then err negative_range
      else ok (
        rows,
        take (pos_part opts.limit) (drop (pos_part opts.offset) (c.chosen (select test rows))),
      )

  -- The loop over the rows.
  unfoldable pub read_orders : List (Row p) → Result (List (Order p))
  read_orders [] = ok []
  read_orders (r ∷ rs) = elim (read_order r) [
    | err e ↦ err e
    | ok order ↦ elim (read_orders rs) [ err e ↦ err e | ok orders ↦ ok (order ∷ orders) ]
  ]

  abbrev pub read_page : ℤ → List (Row p) → Action (Database p) (List (Order p) × ℤ)
  read_page total_count rows db = elim (read_orders rows) [
    | err e ↦ (err e, db)
    | ok orders ↦ (ok (orders, total_count), db)
  ]

  -- The count, then the page.
  unfoldable pub list_where :
      Bool → (Row p → Bool) → ListOptions → Action (Database p) (List (Order p) × ℤ)
  unfolding read_orders
  list_where taken test opts = do
    total_count ← execute (count_where taken test)
    execute (select_page taken test opts) >>= read_page total_count

  unfoldable pub list : ListOptions → Action (Database p) (List (Order p) × ℤ)
  list opts = list_where (takes_status p opts.status) (listed opts) opts

  unfoldable pub find_by_customer_id :
      String → ListOptions → Action (Database p) (List (Order p) × ℤ)
  find_by_customer_id customer_id opts =
      list_where (p.column_text customer_id && takes_status p opts.status)
        (listed_for customer_id opts) opts

-- `NewOrderRepository`
unfoldable pub new_order_repository : (p : Platform) → OrderRepository p (Database p)
new_order_repository p = record {
  create = Postgres.create;
  find_by_id = Postgres.find_by_id;
  update = Postgres.update;
  delete = Postgres.delete;
  list = list;
  find_by_customer_id = find_by_customer_id;
}
