-- ===== src/Service/Interface.antt =====
-- internal/service/dto.go, event_publisher.go and order_service.go.
use go_ordersvc.Prelude.{ℕ, ⊤, String, Option, List}
use go_ordersvc.Prelude.Int.{ℤ}
use go_ordersvc.Platform.{Platform}
use go_ordersvc.Effect.{Action}
use go_ordersvc.Domain.Errors.{Error}
use go_ordersvc.Domain.Status.{OrderStatus}
use go_ordersvc.Domain.Item.{OrderItem}
use go_ordersvc.Domain.Order.{Order, PaginatedOrders}

pub record ListOrdersRequest : Type 0 where
  pub page : ℤ
  pub page_size : ℤ
  pub status : Option OrderStatus
  pub customer_id : Option String

module _ (p : Platform) where
  pub record CreateOrderDto : Type 0 where
    pub customer_id : String
    pub items : List (OrderItem p)

  pub record UpdateOrderDto : Type 0 where
    pub items : List (OrderItem p)
    pub status : Option OrderStatus

module _ (p : Platform) (S : Type 0) where
  pub record EventPublisher : Type 0 where
    pub publish_order_created : Order p → Action S ⊤
    pub publish_order_updated : Order p → Action S ⊤
    pub publish_order_status_changed : Order p → OrderStatus → OrderStatus → Action S ⊤

  pub record OrderService : Type 0 where
    pub create_order : CreateOrderDto p → Action S (Order p)
    pub get_order_by_id : String → Action S (Order p)
    pub update_order : String → UpdateOrderDto p → Action S (Order p)
    pub delete_order : String → Action S ⊤
    pub list_orders : ListOrdersRequest → Action S (PaginatedOrders p)
    pub update_order_status : String → OrderStatus → Action S (Order p)

  -- What the operations use beside the three dependencies: `uuid.New()`, `time.Now()`, and
  -- `slog.Warn` with its message, the order's id and the error.
  pub record Runtime : Type 0 where
    pub new_uuid : S → p.UUID × S
    pub now : S → ℕ × S
    pub warn : String → String → Error → S → S
