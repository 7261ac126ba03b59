-- ===== src/Domain/Item.antt =====
-- internal/domain/item.go
use go_ordersvc.Prelude.{String, Option, none, some, str_eq, if◌then◌else◌}
use go_ordersvc.Prelude.Int.{ℤ, pos, leb_ℤ}
use go_ordersvc.Platform.{Platform}
use go_ordersvc.Domain.Errors.{
  DomainError, invalid_product_id, invalid_product_name, invalid_quantity, invalid_price,
}

module _ (p : Platform) where
  open p use {UUID, Float64, float_zero, of_int, float_mul, float_leb}

  pub record OrderItem : Type 0 where
    pub id : UUID
    pub product_id : String
    pub name : String
    pub quantity : ℤ
    pub price : Float64
    pub subtotal : Float64

module _ {p : Platform} where
  open p use {float_zero, of_int, float_mul, float_leb}

  unfoldable pub calculate_subtotal : OrderItem p → p.Float64
  calculate_subtotal i = float_mul (of_int i.quantity) i.price

  unfoldable pub validate : OrderItem p → Option DomainError
  validate i =
      if str_eq i.product_id ""
      then some invalid_product_id
      else if str_eq i.name ""
      then some invalid_product_name
      else if leb_ℤ i.quantity (pos 0)
      then some invalid_quantity
      else if float_leb i.price float_zero
      then some invalid_price
      else none
