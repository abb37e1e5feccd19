-- ===== src/Memory.antt =====
-- memory.hpp: the owners of memory contexts, and the scopes, trackers and allocators that use them.
pub mod Owned
pub mod Tracking
pub mod Contexts
mod Examples
