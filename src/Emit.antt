-- ===== src/Emit.antt =====
-- tools/socgen/emit: the VHDL that is emitted.
pub mod Irq
