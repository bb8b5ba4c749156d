-- ===== src/Chain.antt =====
-- internal/chain: the chain of middlewares, the request's context, and the response buffer.
pub mod Client
pub mod Context
pub mod Buffer
pub mod Slots
pub mod Execute
pub mod Adapter
mod Tests
