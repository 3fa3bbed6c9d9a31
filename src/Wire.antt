-- ===== src/Wire.antt =====
-- protoc-gen-ts/runtime/serialize.ts: the wire format of protocol buffers.
-- `Longs` is what the code uses of the package long. `Bytes` has the writer and the reader of bytes,
-- `Scalars` how single values are written and read, and `Fields` the fields of a message.
pub mod Longs
pub mod Bytes
pub mod Scalars
pub mod Fields
pub mod Messages
pub mod Serializer
mod Tests
