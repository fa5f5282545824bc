-- ===== src/Elaborate.antt =====
-- tools/socgen/elaborate: the resolution of a design, checked and completed.
pub mod Model
pub mod Address
pub mod Irq
pub mod Net
pub mod Prune
pub mod Bus
pub mod Inject
