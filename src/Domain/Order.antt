-- ===== src/Domain/Order.antt =====
-- Order of internal/domain/order.go, and internal/domain/pagination.go. Times are nanoseconds.
use mathlib.Core.List.{foldl}
use go_ordersvc.Prelude.{
  ℕ, String, Option, none, some, List, [], ◌∷◌, str_eq, if◌then◌else◌, is_empty,
}
use go_ordersvc.Prelude.Int.{ℤ}
use go_ordersvc.Platform.{Platform}
use go_ordersvc.Domain.Errors.{DomainError, invalid_customer_id, no_items}
use go_ordersvc.Domain.Status.{OrderStatus}
use go_ordersvc.Domain.Item
use go_ordersvc.Domain.Item.{OrderItem}

module _ (p : Platform) where
  open p use {UUID, Float64}

  pub record Order : Type 0 where
    pub id : UUID
    pub customer_id : String
    pub items : List (OrderItem p)
    pub status : OrderStatus
    pub total : Float64
    pub version : ℤ
    pub created_at : ℕ
    pub updated_at : ℕ
    pub deleted_at : Option ℕ

  pub record PaginatedOrders : Type 0 where
    pub orders : List Order  -- `Data`
    pub page : ℤ
    pub page_size : ℤ
    pub total_count : ℤ
    pub total_pages : ℤ

module _ {p : Platform} where
  -- `total += item.Subtotal`
  abbrev pub add_subtotal : p.Float64 → OrderItem p → p.Float64
  add_subtotal total item = p.float_add total item.subtotal

  unfoldable pub calculate_total : Order p → p.Float64
  calculate_total o = foldl add_subtotal p.float_zero o.items

  -- The loop of `Validate` over the items.
  abbrev pub validate_items : List (OrderItem p) → Option DomainError
  validate_items [] = none
  validate_items (item ∷ items) = elim (Item.validate item) [
    | none ↦ validate_items items
    | some e ↦ some e
  ]

  unfoldable pub validate : Order p → Option DomainError
  validate o =
      if str_eq o.customer_id ""
      then some invalid_customer_id
      else if is_empty o.items
      then some no_items
      else validate_items o.items
