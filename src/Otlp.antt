-- ===== src/Otlp.antt =====
-- hub/gateway/otlp-protobuf.ts: the OTLP JSON to protobuf encoder of the telemetry gateway.
pub mod Wire
pub mod Values
pub mod Encode
pub mod Chunks
pub mod Decode
pub mod Varints
pub mod Schema
pub mod Fields
pub mod Messages
pub mod Hex
pub mod Trees
pub mod Readback
pub mod Records
pub mod Sizes
pub mod Batches
pub mod Splits
pub mod Truncation
pub mod Tests
