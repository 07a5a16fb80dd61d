-- ===== src/Gateway.antt =====
-- The API gateway, apps/api-gateway: its client of the services.
pub mod ServiceClient
mod Tests
