-- ===== src/Admin.antt =====
-- The operator client: its errors and its operations.
pub mod Errors
pub mod Client
