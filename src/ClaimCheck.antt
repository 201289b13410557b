-- ===== src/ClaimCheck.antt =====
-- The claim-check client of the SDK (packages/sdk-typescript/src/claim-check).
pub mod Errors
pub mod Ref
pub mod Client
