-- ===== src/Lib.antt =====
-- go-mock-redis: a server in Go that keeps typed objects under keys, with the hash table, the
-- keyspace, the string commands, the protocol reader and the client library modelled here.
--
-- How the parts interact. A connection hands a client its arguments; the client runs a command; the
-- command parses its options, works on the database, and replies through the client. The database is
-- two hash tables, from keys to objects and from keys to expire times. The hash table moves its
-- entries to a table of twice the size in steps of ten buckets, one step at the start of a write.
--
-- The modules and the code they model:
--   Base           names, lists, words, runs that can fail, UTF-8 and decimals; no code but Go's own
--   Db/Memory      db/zmalloc.go: the counter of used memory, which every operation that allocates
--                  takes and returns
--   Db/Hash        the hash of a key in db/dict.go (`Hash`, FNV-1a of the key's text) and
--                  the equality of keys (`reflect.DeepEqual`), as an instance argument
--   Db/Dict        db/dict.go: `HashTable`, `Set` (set_key), `Get`, `Delete`, `rehashStep`;
--                  Dict/Insert models pointers to entries as slots: `GetEntry`, `AddRaw`,
--                  `GetVal`, `SetVal`, `GetSomeKeys`
--   Db/Dict/*      a table stands for a map (Buckets, Rehash, Steps, Tables), and what the operations
--                  do to it (Write, Delete, Overtake, Stale, Insert/*)
--   Db/Object      db/types.go, db/lru.go, db/evict.go: objects and the clock of access times
--   Db/Keyspace    db/db.go: `RedisDb` and its operations; Keyspace/* proves them against two maps
--   Db/Eviction    db/lru.go, db/evict.go: the pool of keys to evict and `PerformEvictions`
--   Db/Set         db/set.go: a set over the hash table
--   Db/LinkedList  db/dlist.go: the list over a store of nodes; Cursor reads it as a sequence with a
--                  place in it, Remove, Insert, Insert/Between and Iterate prove the operations
--   Resp           resp/resp.go, resp/resp3.go: `parseRESP` and `ConvertToRESP`; Resp/Encode writes
--                  values as the protocol does, Fuel, RoundTrip and Leftovers prove the reader
--   Hredis         deps/hredis/read.go: the state of the reply reader; Items, Bulk and Aggregate are
--                  its readers of items, Replies is `processItem` and `GetReply`
--   Hredis/Format  deps/hredis/hredis.go: `redisFormatCommand`; Hredis/Context: the context and
--                  `RedisCommand`
--   Cli            cmd/cli.go: the prompt, and the handshake of a connection over Hredis/Context
--   Node/Flags     node/client.go: the flags of a client
--   Db/RadixTree   db/rax.go: the radix tree, with `Insert` and `Find` in Operations and `Delete` in
--                  Delete; the other modules below it are about the search (Sorted, Search), the
--                  keys of an insertion (Keys, Split) and what a deletion takes away (Delete/Lost)
--   Node/Client    node/client.go, node/object.go, node/command.go, node/multi.go: the replies
--   Node/Options   node/strcmd.go: `parseExtendedStringArgumentsOrReply`
--   Node/StrCmd    node/strcmd.go: SET, SETNX, SETEX, PSETEX and GET
--   Node/Command   node/command.go, node/acl.go: commands, their flags, and `checkCmd`;
--                  Command/Access/Restricted is about the first arguments that a selector allows
--   Node/Process   node/client.go: `resetClient`, the rejections, `processCommand` (Checks) and
--                  `processInputBuffer` (Input), `processInlineBuffer` (Inline)
--   Tests          runs and theorems at concrete inputs
--
-- State and errors. A method that changes its receiver returns the new state. Every panic of Go that
-- the modelled code can reach is a fault of `Run`, so a theorem that a call returns says that it does
-- not panic. The objects that the dictionary holds by pointer are values in its entries: a write
-- through the pointer that a lookup returned is a write to the entry (`touch`). A client's connection
-- is the bytes that it has been sent; errors of the connection are ignored by the code and not
-- modelled.
--
-- Numbers. Machine words keep their wrap-around where the code can reach it: the used memory, the
-- milliseconds of an expire time, and the hash, a 32-bit word. The counters of entries, hits and misses
-- and the sizes of the tables are natural numbers: they count memory cells and calls. The length of
-- a list and the size of a radix tree are integers, since the code lowers them without a test.
--
-- Loops. Chains and buckets are lists and the loops over them are structural. The option parser gets
-- as many rounds as arguments are left, and each round takes at least one. The sampling of keys takes
-- its random draws as a list and fails if they run out. The loops of the eviction and of the input
-- run on rounds, and a run that needs more is a fault. `parseRESP` may nest as deep as its data is
-- long, and `GetReply` makes two rounds, which suffices for every reader that its calls lead to.
--
-- Not modelled: the event loop and the sockets, the printing of
-- protocol values, and of the command line client its terminal and its help. The wall clock, what `fmt` prints of a
-- pointer, and the tables of `unicode.SimpleFold` for the access control are arguments.
pub mod Base
pub mod Cli
pub mod Db
pub mod Hredis
pub mod Node
pub mod Resp
mod Tests
