-- ===== src/Stream.antt =====
-- src/stream.rs: the buffers of a stream.
pub mod RangeBuf
pub mod Heap
pub mod Spells
pub mod RecvBuf
pub mod SendBuf
pub mod Streams
pub mod Map
