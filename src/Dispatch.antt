-- ===== src/Dispatch.antt =====
-- plugins/dispatch: the route dispatcher, layer by layer.
pub mod Model
pub mod Segments
pub mod Graph
pub mod Match
pub mod Registry
pub mod Select
pub mod Sticky
pub mod Handle
pub mod Health
pub mod Component
mod Tests
