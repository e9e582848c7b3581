-- ===== src/Api.antt =====
-- The API's router: its endpoints (api/router/endpoint.go) and the routes over the registry
-- (api/router/registry/registry.go).
pub mod Endpoints
pub mod Router
