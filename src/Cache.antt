-- ===== src/Cache.antt =====
-- rust/src/fs.rs: `IntrospectionCache`, a map with a time to live and a bound on its entries, from
-- which the least recently used entry is evicted.
-- `Defs` has the operations, `Invariant` what they keep, `Insert`, `Get` and `Recency` what these make of the
-- entries.
pub mod Defs
pub mod Keys
pub mod Invariant
pub mod Insert
pub mod Get
pub mod Recency
mod Tests
