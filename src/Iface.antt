-- ===== src/Iface.antt =====
-- tools/socgen/iface: the interfaces of the design units, read off the parsed files.
pub mod Model
pub mod Extract
