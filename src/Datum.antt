-- ===== src/Datum.antt =====
-- datum.hpp, type.hpp and types.hpp: nullable datums, the conversions of C++ values, and the types they go by.
pub mod Nullable
pub mod Integers
pub mod Types
pub mod Laws
mod Examples
