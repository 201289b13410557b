-- ===== src/Conformance.antt =====
-- conformance/check.mjs: the check of the conformance vectors and of every SDK against them.
pub mod Cases
pub mod Producer
pub mod Pool
pub mod Exit
