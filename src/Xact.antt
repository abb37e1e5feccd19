-- ===== src/Xact.antt =====
-- xact.hpp: `internal_subtransaction` and `transaction`, which end what they began when their scope is left.
pub mod Subtransaction
pub mod Transaction
pub mod Balance
pub mod Choice
pub mod Nested
pub mod Ids
mod Examples
