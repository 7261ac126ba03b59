-- ===== src/Http/Router.antt =====
-- internal/handler/http/router.go and `RegisterRoutes` of order_handler.go, over the router of chi.
use go_ordersvc.Prelude.{String}
use go_ordersvc.Platform.{Platform}
use go_ordersvc.Http.Handlers.{
  HttpRequest, Reply, OrderHandler, create_order, get_order, list_orders, update_order_status,
  update_order, delete_order,
}
use go_ordersvc.Http.Health.{HealthHandler, healthz, readyz}

pub record Route (H : Type 0) : Type 0 where
  pub method : String
  pub pattern : String
  pub endpoint : H

pub data Middleware : Type 0 where
  chi_request_id chi_real_ip logging chi_recoverer : Middleware

-- What the code uses of chi: `NewRouter`, `Use`, `Get` and its like by the method's name, and
-- `Route`.
pub record Chi (H : Type 0) : Type 1 where
  pub Mux : Type 0
  pub new_mux : Mux
  pub use_middleware : Middleware → Mux → Mux
  pub handle : String → String → H → Mux → Mux
  pub route : String → (Mux → Mux) → Mux → Mux

module _ (p : Platform) (S : Type 0) where
  abbrev pub Endpoint : Type 0
  Endpoint = HttpRequest p → S → Reply p × S

module _ {p : Platform} {S : Type 0} (chi : Chi (Endpoint p S)) where
  open chi use {Mux, handle}

  unfoldable pub register_routes : OrderHandler p S → Mux → Mux
  register_routes h = chi.route "/api/v1/orders" λ r.
      let r₁ = handle "POST" "/" (create_order h.service) r in
      let r₂ = handle "GET" "/" (list_orders h.service) r₁ in
      let r₃ = handle "GET" "/{id}" (get_order h.service) r₂ in
      let r₄ = handle "PUT" "/{id}" (update_order h.service) r₃ in
      let r₅ = handle "DELETE" "/{id}" (delete_order h.service) r₄ in
      handle "PATCH" "/{id}/status" (update_order_status h.service) r₅

  unfoldable pub new_router : OrderHandler p S → HealthHandler S → Mux
  unfolding register_routes
  new_router order_handler health_handler =
      let stacked = chi.use_middleware chi_recoverer (
        chi.use_middleware logging
          (chi.use_middleware chi_real_ip (chi.use_middleware chi_request_id chi.new_mux))) in
      let r₁ = handle "GET" "/healthz" (λ _. healthz health_handler) stacked in
      let r₂ = handle "GET" "/readyz" (λ _. readyz health_handler) r₁ in
      register_routes order_handler r₂
