-- ===== src/Tests.antt =====
-- Runs of the definitions on small inputs, and the theorems at them.
mod Vhdl
mod Decode
mod Elaborate
mod Irq
mod Net
mod Emit
mod Parser
mod Iface
