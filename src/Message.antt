-- ===== src/Message.antt =====
-- message/index.ts: queue messages. The fields' checks are in `Message.Fields`, the body's in
-- `Message.Body`, and `decodeMessage` in `Message.Decode`.
pub mod Errors
pub mod Fields
pub mod Body
pub mod Decode
pub mod Wire
pub mod Keys
