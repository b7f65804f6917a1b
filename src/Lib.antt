-- ===== src/Lib.antt =====
-- sonic-swss-common: tables in Redis through which the daemons of a SONiC switch hand each other
-- their state. A producer writes into pending hashes and a set of keys and notifies the consumer,
-- which pops the keys and moves their fields into the table; both do so by Lua scripts that Redis
-- runs one at a time. The same requests also travel in a binary message over ZMQ.
--
-- The files, and the code that they model:
--
-- - Prelude and its children: numbers, tests, lists, bytes and association lists that all parts
--   use. Text is a list of byte codes (Prelude/Text).
-- - Decimal: `std::to_string` of an unsigned number, `std::stoi`, `std::stoul` and `strtoul`, of the
--   C++ library.
-- - Kco: the tuples of common/table.h and the commands of common/schema.h.
-- - Redis: the commands of the Redis server with their documented effects, as a record that all
--   clients take as a parameter `r`. Redis/Loops has the loops over commands, Redis/Memory and
--   Redis/Model an instance in memory, on which the tests run.
-- - RedisPipeline: common/redispipeline.h. A pushed command is a function on the database that
--   waits in `queued`; `settled` is the database behind the queue.
-- - StateTable/Names: the names in common/table.h and when those of different keys differ.
--   StateTable/Scripts: the Lua scripts of common/producerstatetable.cpp and of
--   common/consumer_state_table_pops.lua and common/producer_state_table_apply_view.lua.
--   StateTable/Producer: class ProducerStateTable, `set_all` and `del_all` being the overloads of
--   `set` and `del` for many requests. StateTable/Consumer: `ConsumerStateTable::pops`.
--   StateTable/View: what a table will hold once everything pending is delivered, the
--   specification of the other parts. Commands, Changes, Pop, Pops and Delivery have the lemmas on
--   scripts, operations and pops. Held has what a row holds next to the view, Runs what Redis runs for
--   a table and what that means, History the sequences of it: every operation of a producer that has
--   Redis run a script, `clear` and `apply_temp_view` among them, and pops. `apply_temp_view` is one
--   step of a history, as if nothing ran between its scripts. StateTable/TempView:
--   `apply_temp_view` and `Table::dump` of common/table.cpp. Compare and Diff are about its
--   comparison of two views, Dumps about the dump, Apply about the scripts, Switch and Applied about
--   the view behind them. StateTable/EmptyKey is about a request without a key.
-- - Serializer: common/binaryserializer.h. A buffer is the list of its bytes, `size_t` has 64 bits
--   and is little endian, and a read beyond the buffer is the error `out_of_bounds`.
-- - ConfigDb: common/configdb.cpp, one database being the parameter `r`. ConfigDb/Entries is about
--   single entries and the pipelined connector, ConfigDb/Tables about whole tables, ConfigDb/Modify
--   about `mod_config`. Keys are turned into capitals as in the C locale.
-- - Events: common/events.cpp, with common/events_pi.h and the conversions of
--   common/events_common.cpp. The deserialization of a cached event is a parameter. A `World` is
--   what waits for the subscriber; `event_receive` has fuel for every message that waits and one
--   round more, and Events/Ends shows that this is enough. A read of the empty socket times out, or
--   waits if `init` was given the timeout -1. `junk` is what the memory of a sequence number holds
--   that `str_to_seq` does not initialise and does not read. Events/Sequences is about the numbers,
--   Events/Stream about a publisher's events on their way, Events/Prune about the tracked publishers.
-- - Notification: a message is built by common/notificationproducer.cpp and queued and popped by
--   common/notificationconsumer.h and common/notificationconsumer.cpp. Notification/Queue is the
--   queue that drops duplicates, with Lookup, Refines and Order about its index and its order;
--   Notification/Producer has the functions of common/json.cpp over a parameter for the JSON library,
--   of which Notification/PlainJson is an instance; Notification/Consumer is the consumer over either
--   queue, with Admission, Allowed, Popping, Batches and RoundTrip about its operations. What arrives
--   in the connection is a list, and the end of that list a peek that finds nothing.
-- - Select: common/select.h, common/select.cpp and common/selectable.h, over the virtual functions of
--   the objects as a record, which Notification/Waits fills for a NotificationConsumer. A `readData`
--   may end in the `std::runtime_error` that `poll_descriptors` catches; other exceptions are not
--   modelled. Objects have
--   addresses; what epoll and the signals do and the readings of the clock are parameters. Ordered and
--   Steps are about the set and the loops, Valid and Reach about what always holds, Chosen about the
--   object that is returned, Turns, Rank and Fair about waiting for a turn, Twins about equal objects.
-- - WarmStart: common/warm_restart.h and common/warm_restart.cpp, over class Table. Stored is about
--   fields written and read, States about the recorded states, Restarts about `checkWarmStart`.
-- - DbConfig: class SonicDBConfig of common/dbconnector.h and common/dbconnector.cpp. The file system
--   and the JSON library are the parameter `Files`; a `Config` is the static members. Parse has
--   `parseDatabaseConfig`, Load the operations that load, Find the lookups; Numbered is about the
--   separators by number, Valid and Asked about what holds after any calls. The two forms of a lookup,
--   by a key or by its two parts, are one function. Unordered maps are listed as they were filled.
-- - Ip: common/ipaddress.h and common/ipaddress.cpp. An address is its family and its octets in
--   memory, in network order; `inet_pton` and `inet_ntop` are a parameter, of which Ip/Hex is an
--   instance. Ip/Prefix: common/ipprefix.h and common/ipprefix.cpp. Bits, Filled and Masks are about
--   the bits of octets and what the masks do to them, Membership about `isAddressInSubnet`, Subnet
--   about `getSubnet` and `getBroadcastIp`, RoundTrip about the constructors and `to_string`.
--   `operator<` of IPv4 compares numbers as a little-endian machine reads them. Ip/Addresses:
--   common/ipaddresses.cpp, with Order about the comparison and Members about the set.
-- - PlainTable: class Table of common/table.cpp, but for `dump`, which is in StateTable/TempView.
-- - Tokenize: common/tokenize.cpp; the loop over the lines has the length of the text as fuel.
-- - MacAddress: common/macaddress.h and common/macaddress.cpp.
--
-- Fuel is used by `Events.event_receive` and `Tokenize.tokenize` (above) and by `Decimal.digits`,
-- which starts with one more than the number. `Notification.Consumer.drain` has the size of the queue
-- as fuel. Loops over lists are recursive on the list, the loop over the pairs of a message on their
-- count, and a poll on the number of signals that interrupt it.
--
-- Not modelled: the connection to Redis and its errors, glob characters in names, bytes 0 in texts
-- (the source hands many of them on as C strings), threads, sockets and logging; `SPOP` takes any
-- distinct members, as Redis documents. The bindings to other languages have no model.
mod Prelude
pub mod Decimal
pub mod Kco
pub mod Serializer
pub mod MacAddress
pub mod Redis
pub mod StateTable
pub mod RedisPipeline
pub mod ConfigDb
pub mod Events
pub mod PlainTable
pub mod Tokenize
pub mod Notification
pub mod Select
pub mod WarmStart
pub mod Ip
pub mod DbConfig
