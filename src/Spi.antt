-- ===== src/Spi.antt =====
-- executor.hpp: the stack of SPI executors, queries and plans, their arguments, and the rows of a result.
pub mod Executor
pub mod Operations
pub mod Arguments
pub mod Plan
pub mod Rows
pub mod Stack
pub mod Current
pub mod Iteration
mod Examples
