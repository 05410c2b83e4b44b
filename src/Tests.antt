-- ===== src/Tests.antt =====
-- Runs of the model and the theorems at concrete inputs. No code is modelled here.
mod Dict
mod Keyspace
mod Commands
mod Eviction
mod Process
mod Resp
mod Hredis
mod LinkedList
mod RadixTree
