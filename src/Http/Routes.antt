-- ===== src/Http/Routes.antt =====
-- The endpoints that docs/API.md documents, with their handlers.
use go_ordersvc.Prelude.{List, [], ◌∷◌}
use go_ordersvc.Platform.{Platform}
use go_ordersvc.Http.Handlers.{
  OrderHandler, create_order, get_order, list_orders, update_order_status, update_order,
  delete_order,
}
use go_ordersvc.Http.Health.{HealthHandler, healthz, readyz}
use go_ordersvc.Http.Router.{Route, Endpoint}

module _ {p : Platform} {S : Type 0} (orders : OrderHandler p S) (health : HealthHandler S) where
  -- docs/API.md
  abbrev pub documented : List (Route (Endpoint p S))
  documented =
      record { method = "POST"; pattern = "/api/v1/orders"; endpoint = create_order orders.service }
      ∷ record {
        method = "GET";
        pattern = "/api/v1/orders/{id}";
        endpoint = get_order orders.service;
      }
      ∷ record { method = "GET"; pattern = "/api/v1/orders"; endpoint = list_orders orders.service }
      ∷ record {
        method = "PUT";
        pattern = "/api/v1/orders/{id}";
        endpoint = update_order orders.service;
      }
      ∷ record {
        method = "PATCH";
        pattern = "/api/v1/orders/{id}/status";
        endpoint = update_order_status orders.service;
      }
      ∷ record {
        method = "DELETE";
        pattern = "/api/v1/orders/{id}";
        endpoint = delete_order orders.service;
      }
      ∷ record { method = "GET"; pattern = "/healthz"; endpoint = λ _. healthz health }
      ∷ record { method = "GET"; pattern = "/readyz"; endpoint = λ _. readyz health }
      ∷ []
