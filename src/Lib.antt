-- ===== src/Lib.antt =====
-- Ankusa's TypeScript SDK (packages/sdk-typescript/src): what a consumer of Ankusa's hooks does with
-- the messages, deliveries and claim-check refs it is given; the consumers of the examples that are
-- written in TypeScript; and the check that holds every SDK to the same vectors.
--
-- A hook reaches a consumer in one of two ways. A queue message is decoded by `decodeMessage`
-- (message/index.ts); its body is inline, or a claim-check ref (claim-check/ref.ts) that
-- `redeem` fetches over HTTP and checks against the message's digest (claim-check/client.ts). A webhook
-- delivery is judged by `receiveDelivery` (webhook/receive.ts), which verifies its signature
-- (webhook/signature.ts) and reads its headers (webhook/headers.ts). Either gives a hook, from which
-- `idempotencyKey` makes the key that a consumer dedupes on, and `isTrusted` its trust.
-- A lifecycle event, which is the body of such a message, is decoded by `decodeLifecycle`
-- (lifecycle/index.ts). Operators use the clients of admin/client.ts and routes/client.ts.
-- The workers of the examples settle each message that a queue delivers: the SQS worker handles a
-- batch, each group in its order, the JetStream consumer one delivery at a time, the RabbitMQ worker each
-- delivery on its own, and the fleet consumer up to 32, each of which it writes to a table.
-- Every SDK is held to the same vectors, which conformance/check.mjs checks before it runs the SDKs on
-- them.
--
-- The files, by the part of the source that they model (the SDK's by their paths in its src):
--   Message/{Errors,Fields,Body,Decode}.antt  `decodeMessage`: a result in place of the exceptions, the
--                        checks in their order; Message/Wire.antt is the serialized form, and
--                        Message/Keys.antt `idempotencyKey` and `isTrusted`
--   Webhook/{Headers,Signature,Receive}.antt  `parseHeaders`, `verifySignature`, `receiveDelivery`
--   ClaimCheck/{Errors,Ref,Client}.antt       the errors and their `retryable`, `parseClaimRef`,
--                        `createClaimCheckClient`
--   Worker/Sqs.antt, Worker/Sqs/{Run,Start,Main}.antt  `processBatch` and `main` of
--                        examples/kafka-sqs-consumer/worker/src/worker.ts, as a function on the ids
--                        processed, the groups blocked and a log of what was done; SQS is a
--                        parameter that takes or refuses each command. Worker/Sqs/Queue.antt is
--                        the worker with its FIFO queue, as a step relation
--   Worker/JetStream.antt, Worker/JetStream/{Start,Main}.antt  `handle`, and `main` with what it sets
--                        up, of examples/jetstream-k8s/consumer/src/worker.ts;
--                        Worker/JetStream/Cluster.antt is any number of its replicas with the stream,
--                        the dead letters and the panel's ledger, as a step relation
--   Lifecycle.antt       `decodeLifecycle`
--   Admin/{Errors,Client}.antt, Routes/{Errors,Client}.antt  `createAdminClient`, `createRoutesClient`
--   Worker/Rabbit.antt   the handler of examples/rabbitmq-consumer/worker/src/worker.ts
--   Worker/Fleet.antt, Worker/Fleet/{Connect,System,Main}.antt  examples/fleet-e2e/consumer/src/worker.ts:
--                        the statement, the connection, and the consumer with RabbitMQ as a step relation
--   Worker/Amqp.antt     how these two start; Starting.antt is what all programs share there
--   Worker/Raw.antt      what these workers share: reading a message and fetching its body
--   Worker/Wired.antt    one message as the workers read it, each in its way: with `decodeMessage`, or
--                        with `JSON.parse` and a `resolveBody` of their own
--   Worker/Broker.antt   what the brokers with their consumers have in common: a bag of messages, each
--                        of which arrives, waits and is settled. Worker/JetStream/Refines.antt and
--                        Worker/Fleet/Refines.antt fill it, and Worker/Broker/Client.antt uses it
--   ControlPanel.antt    examples/jetstream-k8s/control_panel/assets/js/app.js
--   EventRouting/{Receiver,Worker,Start}.antt  the receiver and the worker of examples/event-routing
--   Conformance/{Cases,Producer,Pool}.antt  conformance/check.mjs: what it requires of the cases,
--                        the comparison of the producer vectors, and the pool that runs the SDKs, as a
--                        step relation; Conformance/Exit.antt is the exit code of the whole
--   Regex.antt           the regular expressions of the SDK: literal text and runs of a class
--   Base64.antt          `Buffer.from(_, "base64")` and its inverse, and the pattern that guards it
--   Json.antt            what `JSON.parse` returns
--   Runtime.antt, Http.antt  what is not part of the repository, as parameters: JSON, UTF-8, SHA-256,
--                        HMAC, `toLowerCase`, `Number`; and `openapi-fetch` as a gateway that answers a
--                        request or fails. No law of any of them is assumed,
--                        but where a theorem names it among its hypotheses.
--   Http/Options.antt    the options of the three clients, which are the same, and what they ask of
--                        `createClient` of openapi-fetch
--   Prelude.antt, Fixtures.antt               shared helpers; the data of the tests
-- The other modules below a part prove what it does; Tests modules hold the examples.
--
-- The step relations allow more than the brokers do: messages may come in any order, but for the groups
-- of the FIFO queue, and again at any time; answers and settlements may be lost; and there may be a restart
-- at any point. Where it matters how what is outside answers, `StepAt` has only the steps in
-- which one world, or one gateway, does.
--
-- Texts are lists of character codes, and an exception is a constructor of an error type without
-- its message text. Loops are structural recursion, but for `connect`, which has fuel for the 60
-- attempts that the source makes at most. `in` asks for the own members of an object. Numbers of
-- JSON are integers or other numbers, since the SDK only asks `Number.isInteger`. A call of a
-- client is its result with the requests that it made, in their order; deadlines are among the
-- failures of the gateway. Not modelled: printing, but for the hooks of the RabbitMQ worker and of
-- the event-routing worker; the server (packages/ankusa*) and the control panel behind its page,
-- which are in Elixir; the SDKs in other languages; and generated OpenAPI types.
pub mod Prelude
pub mod Fixtures
pub mod Json
pub mod Regex
pub mod Runtime
pub mod Starting
pub mod Http
pub mod Webhook
pub mod Message
pub mod Base64
pub mod ClaimCheck
pub mod ControlPanel
pub mod Routes
pub mod Admin
pub mod Lifecycle
pub mod Worker
pub mod Conformance
pub mod EventRouting
