-- ===== src/Geosite.antt =====
-- src/server/adapters/geosite.ts: reading the protobuf database of domain lists.
pub mod Reader
pub mod Varint
pub mod Message
pub mod Shorter
pub mod Fields
pub mod Domain
pub mod Compile
pub mod Cover
pub mod Matches
pub mod Convert
mod Tests
