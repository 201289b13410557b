-- ===== src/Routes.antt =====
-- The route-management client: its errors and its operations.
pub mod Errors
pub mod Client
