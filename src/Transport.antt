-- ===== src/Transport.antt =====
-- python/value_transport.py and python/append_value_transport.py: the transport of a value that was
-- already selected, token by token, into a reply.
mod Values
pub mod Handle
pub mod Codec
pub mod Cursor
pub mod Compile
unfoldable pub use Values.*
