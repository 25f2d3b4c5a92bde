-- ===== src/MsgPack.antt =====
-- src/msgpack/: the MessagePack encoder and decoder.
pub mod Write
pub mod Reader
pub mod Read
mod Masks
mod Sized
mod Ensures
pub mod Insert
pub mod Sound
mod Scalars
mod Keys
pub mod RoundTrip
pub mod Encodable
mod Integers
mod Tests
