-- ===== src/Repository/Database.antt =====
-- The table `orders` (db/migrations/000001_create_orders_table.up.sql) as PostgreSQL keeps it for
-- the statements of internal/repository/postgres/order_repository_postgres.go. Each statement runs
-- by itself, in a transaction of its own.
use go_ordersvc.Prelude.{
  ℕ, suc, ◌^◌, ltb, Bool, ◌&&◌, String, Option, none, some, List, [], ◌∷◌, if◌then◌else◌, is_none,
}
use go_ordersvc.Prelude.Int.{ℤ, pos, negsuc, ltb_ℤ}
use go_ordersvc.Json.{Json, ◌>>=◌}
use go_ordersvc.Platform.{Platform}
use go_ordersvc.Outside.{Server}
use go_ordersvc.Domain.Status.{OrderStatus, valid_statuses, contains}

module _ (p : Platform) where
  open p use {UUID, Float64}

  pub record Row : Type 0 where
    pub id : UUID
    pub customer_id : String
    pub items : Json Float64
    pub status : OrderStatus
    pub total : Float64
    pub version : ℤ
    pub created_at : ℕ
    pub updated_at : ℕ
    pub deleted_at : Option ℕ

  -- The table behind the pool. The server chooses the order in which it returns rows for
  -- ORDER BY created_at DESC.
  abbrev pub RowOrder : Type 0
  RowOrder = List Row → List Row

  abbrev pub Database : Type 0
  Database = Server (List Row) RowOrder

-- The range of INTEGER, of which the check `positive_version` leaves the positive part.
abbrev pub is_version : ℤ → Bool
is_version v = ltb_ℤ (pos 0) v && ltb_ℤ v (pos (2 ^ 31))

-- Whether a parameter of type INTEGER takes a number.
abbrev pub is_int4 : ℤ → Bool
is_int4 (pos n) = ltb n (2 ^ 31)
is_int4 (negsuc n) = ltb n (2 ^ 31)

-- The check `valid_status`.
abbrev pub is_status : OrderStatus → Bool
is_status s = contains s valid_statuses

module _ {p : Platform} where
  open p use {UUID, uuid_eq, Float64}

  -- `deleted_at IS NULL`
  abbrev pub is_live : Row p → Bool
  is_live r = is_none r.deleted_at

  -- The first of the rows that pass a WHERE, as `QueryRow` reads it.
  abbrev pub select_first : (Row p → Bool) → List (Row p) → Option (Row p)
  select_first test [] = none
  select_first test (r ∷ rs) = if test r then some r else select_first test rs

  -- `UPDATE … WHERE`: every row that passes the test is changed, and counted. `none` is a column
  -- or a check constraint that refuses a changed row; then no row is changed.
  abbrev pub update_where :
      (Row p → Bool) → (Row p → Option (Row p)) → List (Row p) → Option (List (Row p) × ℕ)
  update_where test change [] = some ([], 0)
  update_where test change (r ∷ rs) =
      let rest = update_where test change rs in
      if test r
      then (do r' ← change r; (rs', n) ← rest; some (r' ∷ rs', suc n))
      else (do (rs', n) ← rest; some (r ∷ rs', n))
