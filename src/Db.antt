-- ===== src/Db.antt =====
-- The package db: the memory counter, the hash table with incremental rehashing, the keyspace and
-- the eviction pool.
pub mod RadixTree
pub mod LinkedList
pub mod Memory
pub mod Hash
pub mod Dict
pub mod Object
pub mod Keyspace
pub mod Eviction
pub mod Set
