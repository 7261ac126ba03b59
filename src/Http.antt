-- ===== src/Http.antt =====
-- internal/handler/http: the REST interface of the service.
pub mod Params
pub mod Messages
pub mod Handlers
pub mod Health
pub mod Paging
pub mod Errors
pub mod Router
pub mod Routes
pub mod Served
pub mod Access
