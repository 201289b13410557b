-- ===== src/Worker.antt =====
-- The example workers that consume hooks from a queue.
pub mod Raw
pub mod Sqs
pub mod JetStream
pub mod Rabbit
pub mod Fleet
pub mod Amqp
pub mod Wired
pub mod Broker
