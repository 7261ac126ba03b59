-- ===== src/Repository/Interface.antt =====
-- internal/repository/order_repository.go. `Create` and `Update` write the new version into the
-- order that they are given: here they return it.
use go_ordersvc.Prelude.{⊤, String, Option, List}
use go_ordersvc.Prelude.Int.{ℤ}
use go_ordersvc.Platform.{Platform}
use go_ordersvc.Effect.{Action}
use go_ordersvc.Domain.Status.{OrderStatus}
use go_ordersvc.Domain.Order.{Order}

pub record ListOptions : Type 0 where
  pub limit : ℤ
  pub offset : ℤ
  pub status : Option OrderStatus

module _ (p : Platform) (S : Type 0) where
  pub record OrderRepository : Type 0 where
    pub create : Order p → Action S (Order p)
    pub find_by_id : String → Action S (Option (Order p))
    pub update : Order p → Action S (Order p)
    pub delete : String → Action S ⊤
    pub list : ListOptions → Action S (List (Order p) × ℤ)
    pub find_by_customer_id : String → ListOptions → Action S (List (Order p) × ℤ)
