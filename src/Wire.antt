-- ===== src/Wire.antt =====
-- The gRPC-web and protobuf codec, xconsole_client/grpcweb.py.
pub mod Base
pub mod Varint
pub mod Utf8
pub mod Message
pub mod Frame
mod Examples
