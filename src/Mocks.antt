-- ===== src/Mocks.antt =====
-- internal/mocks: the test doubles of the three dependencies of the service. A function field that
-- is nil is `none`, and its method then answers with zero values.
use go_ordersvc.Prelude.{ℕ, ⊤, String, Option, none, some, List, []}
use go_ordersvc.Prelude.Int.{ℤ, pos}
use go_ordersvc.Platform.{Platform}
use go_ordersvc.Effect.{Action, pure}
use go_ordersvc.Domain.Status.{OrderStatus}
use go_ordersvc.Domain.Order.{Order}
use go_ordersvc.Repository.Interface.{ListOptions, OrderRepository}
use go_ordersvc.Cache.Interface.{OrderCache}
use go_ordersvc.Service.Interface.{EventPublisher}

module _ (p : Platform) (S : Type 0) where
  pub record OrderRepositoryMock : Type 0 where
    pub create_func : Option (Order p → Action S (Order p))
    pub find_by_id_func : Option (String → Action S (Option (Order p)))
    pub update_func : Option (Order p → Action S (Order p))
    pub delete_func : Option (String → Action S ⊤)
    pub list_func : Option (ListOptions → Action S (List (Order p) × ℤ))
    pub find_by_customer_id_func : Option (String → ListOptions → Action S (List (Order p) × ℤ))

  pub record OrderCacheMock : Type 0 where
    pub get_func : Option (String → Action S (Option (Order p)))
    pub set_func : Option (Order p → ℕ → Action S ⊤)
    pub delete_func : Option (String → Action S ⊤)
    pub delete_pattern_func : Option (ℕ → String → Action S (Option ⊤))

  pub record EventPublisherMock : Type 0 where
    pub publish_order_created_func : Option (Order p → Action S ⊤)
    pub publish_order_updated_func : Option (Order p → Action S ⊤)
    pub publish_order_status_changed_func :
        Option (Order p → OrderStatus → OrderStatus → Action S ⊤)

-- `if m.F != nil { return m.F(…) }`, or else the zero answer.
abbrev pub set_or : {F : Type 0} → F → Option F → F
set_or zero_answer none = zero_answer
set_or zero_answer (some f) = f

module _ {p : Platform} {S : Type 0} where
  -- An order that is given to `Create` or `Update` of a mock without a function stays as it is.
  abbrev pub mock_repository : OrderRepositoryMock p S → OrderRepository p S
  mock_repository m = record {
    create = set_or (λ order. pure order) m.create_func;
    find_by_id = set_or (λ id. pure none) m.find_by_id_func;
    update = set_or (λ order. pure order) m.update_func;
    delete = set_or (λ id. pure tt) m.delete_func;
    list = set_or (λ opts. pure ([], pos 0)) m.list_func;
    find_by_customer_id = set_or (λ customer_id opts. pure ([], pos 0)) m.find_by_customer_id_func;
  }

  abbrev pub mock_cache : OrderCacheMock p S → OrderCache p S
  mock_cache m = record {
    get = set_or (λ id. pure none) m.get_func;
    set = set_or (λ order ttl. pure tt) m.set_func;
    delete = set_or (λ id. pure tt) m.delete_func;
    delete_pattern = set_or (λ rounds pattern. pure (some tt)) m.delete_pattern_func;
  }

  abbrev pub mock_publisher : EventPublisherMock p S → EventPublisher p S
  mock_publisher m = record {
    publish_order_created = set_or (λ order. pure tt) m.publish_order_created_func;
    publish_order_updated = set_or (λ order. pure tt) m.publish_order_updated_func;
    publish_order_status_changed =
        set_or (λ order old_status new_status. pure tt) m.publish_order_status_changed_func;
  }
