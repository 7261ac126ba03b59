-- ===== src/Grpc/Numbers.antt =====
-- What becomes of an order's numbers in the 32 bits of the messages of api/proto/order/v1.
use go_ordersvc.Prelude.{
  ℕ, ◌-◌, ◌^◌, ◌≤◌, ◌<◌, Bool, true, false, String, some, List, ◌≡◌, refl, subst, arith, Bool-cases,
  inl, inr,
}
use go_ordersvc.Prelude.Int.{ℤ, pos, negsuc, leb_ℤ, int32}
use go_ordersvc.Platform.{Platform}
use go_ordersvc.Effect.{ok}
use go_ordersvc.Domain.Item
use go_ordersvc.Domain.Item.{OrderItem}
use go_ordersvc.Domain.Order.{Order}
use go_ordersvc.Repository.Database.{Row, Database, select_first, is_version}
use go_ordersvc.Repository.Postgres.{find_by_id, live_at}
use go_ordersvc.Repository.Table.{IsRow, IsTable}
use go_ordersvc.Repository.Reads.{find_by_id-eq-ok}
use go_ordersvc.Grpc.Messages.{item_to_proto, order_to_proto}

int32-version : (v : ℤ) → is_version v ≡ true → int32 v ≡ v
unfolding int32
int32-version v h = ground arith

counted : (q : ℤ) (n : ℕ) → q ≡ pos n → 0 < n → leb_ℤ q (pos 0) ≡ false
counted q n at_n some_n = ground arith

-- A quantity of 2 ^ 31 or more wraps around.
int32_large : (n : ℕ) → 2 ^ 31 ≤ n → n < 2 ^ 32 → int32 (pos n) ≡ negsuc (2 ^ 32 - n - 1)
unfolding int32
int32_large n large small = ground arith

module _ {p : Platform} where
  -- A row that is found in a table meets the checks.
  found-IsRow :
      (test : Row p → Bool) (rows : List (Row p)) (r : Row p)
      → IsTable rows
      → select_first test rows ≡ some r
      → IsRow r
  found-IsRow test List.[] r valid f = ground arith
  found-IsRow test (List.◌∷◌ x rows) r (_, row, valid) f = elim (Bool-cases (test x)) [
    | inl hit ↦ let same : x ≡ r = ground arith in subst IsRow same row
    | inr miss ↦ found-IsRow test rows r valid (ground arith)
  ]

  -- The version of an order that FindByID found in a table that meets its constraints is the same in
  -- the message of the order.
  pub order_to_proto-version :
      (id : String) (o : Order p) (db : Database p)
      → IsTable db.content
      → (find_by_id id db).0 ≡ ok (some o)
      → (order_to_proto p o).version ≡ o.version
  unfolding order_to_proto
  order_to_proto-version id o db valid read =
      let (r, found, from, _) = find_by_id-eq-ok id db o read in
      let row = found-IsRow (live_at r.id) db.content r valid found in
      rw (from.1) (int32-version r.version row.1)

  -- A quantity from 2 ^ 31 to 2 ^ 32 - 1 validates exactly where the quantity 1 does, and is negative
  -- in the message of the item.
  pub oversized_quantity :
      (item : OrderItem p) (n : ℕ)
      → item.quantity ≡ pos n
      → 2 ^ 31 ≤ n
      → n < 2 ^ 32
      → (Item.validate item ≡ Item.validate (record item { quantity = pos 1 }))
        × ((item_to_proto p item).quantity ≡ negsuc (2 ^ 32 - n - 1))
  unfolding Item.validate item_to_proto
  oversized_quantity item n at_n large small =
      (rw (counted item.quantity n at_n (omega arith)) refl, rw at_n (int32_large n large small))
