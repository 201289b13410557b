-- ===== src/EventRouting.antt =====
-- examples/event-routing: what its receiver and its worker do with the hooks that are routed to them.
pub mod Receiver
pub mod Worker
pub mod Start
mod Tests
