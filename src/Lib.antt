-- ===== src/Lib.antt =====
-- netproc: the network traffic of each process on a Linux host.
--
-- The program reads frames from a capture ring that a BPF program in the kernel fills (filter.c),
-- finds the addresses and ports of each (packet.c), looks up the connection that has them
-- (connection.c, with the hash table of hashtable.c), charges the frame to the process of that
-- connection (statistics.c, rate.c), and once a second sorts the processes (sort.c) and shows their
-- rates (human_readable.c, timer.c). Arrays that grow are vectors (vector.c).
--
-- The paths below are those of the repository, without a leading `src/` of their own.
--
-- - Base, with Base/Tests, Base/Lists, Base/Words, Base/Text, Base/Faults and Base/Bits: tests on numbers, lists
--   read by index, unsigned machine words with their wrap-around written out, strings of bytes, runs that may read
--   outside of an array (`Run`), and laws of `&` and `|`.
-- - Types: the structures that several files share, from rate.h, sockaddr.h, connection.h and
--   processes.h. A pointer to a connection or to a process is its place in a list.
-- - Vector (vector.c, vector.h): `Vector` is the header with the block's cells; vector_new,
--   vector_push, vector_pop, vector_clear and vector_size. Vector/Refine compares it with a list.
-- - Hashtable (hashtable.c, hashtable.h, slist.h): `Table` is `hashtable_t`, an array of chains.
--   Each function has its name: next_power2, get_index, hashtable_rehash, hashtable_min_set,
--   hashtable_min_get, hashtable_min_remove, hashtable_foreach, hashtable_foreach_remove and
--   hashtable_min_detroy. Power is about the size of the array, Chain and Buckets about what is found
--   where, Rehash about moving entries, Methods, Remove, Shrink and Foreach about the operations
--   against a function from keys to values, Contents against the entries that stand in the buckets.
-- - Packet (packet.c, packet.h): store_fragment, search_fragment, get_fragment, clear_frag and
--   parse_packet on the table of 32 slots. Slots is about the loops, Table about the invariant,
--   Described says what one frame is to give, Parse compares that with the code, and Reassembly is
--   about several frames.
-- - Connection (connection.c, connection.h): the table with two entries for each connection, its
--   reference counts, the lines of /proc/net/tcp and /proc/net/udp and the lookups. Aging is about
--   the removal of connections, Listed about the lines, Ends about the end of the program.
-- - Processes (processes.c): the table of processes and its update from what /proc holds. Dead is about
--   the walk that frees, Live about the table after it, Listed about the loops over the directories.
-- - FullRead (full_read.c): the read loop; Whole is about what it has read.
-- - Log (log.c): the merge of the processes into the buffer; Merged is about its totals.
-- - Statistics (statistics.c): statistics_add, which uses Connection, Packet and Rate.
-- - Rate (rate.c, rate.h, round.c): rate_add_rx, rate_add_tx, rate_net_stat, rate_calc and
--   rate_update. Slots is about the ring of five windows, Windows about runs of events, Average about
--   the means, Loops about the loops over processes and connections.
-- - Filter (filter.c): the BPF programs and their choice. Machine says how the kernel runs them,
--   Masks reads the masks, Accept says which frames are kept.
-- - Sort (sort.c, sort.h): the comparators and the sort. Order is about the resulting order.
-- - Queue (resolver/queue.c): enqueue, dequeue and queue_destroy on a heap of nodes. Linked compares
--   it with a list.
-- - ThreadPool (resolver/thread_pool.c): the workers and the main thread as steps on what they share,
--   taken in any order. Invariant and Calm are about every state, Moves about who can go on, Progress
--   about the workers' turns, Shutdown about thpool_free.
-- - Ring (ring.c): the sizes of the capture ring and the places of its blocks; Blocks is about both.
-- - Domain (resolver/domain.c, resolver/sock_util.c): the cache of names, a ring of hosts with a table.
--   Cached is about its answers.
-- - Tui (tui.c): the state of the screen and the keys; Visible is about the selected row.
-- - Config (config.c, config.h): the table of options and the loop over the arguments. Options is
--   about any arguments, Written about those that the usage text offers.
-- - HumanReadable (human_readable.c) and Timer (timer.c): numbers with units, and times.
--
-- Each `Tests` module has runs at concrete inputs and an instance of every theorem listed below.
--
-- Bounds. `size_t` and `uint64_t` have 64 bits, `uint8_t` 8. The load of a hash table is a `float` in
-- the code; the tests are written with whole numbers, which is the same below 2 ^ 24 entries. The
-- mean of five windows is a `double` in the code and a quotient of whole numbers here, the same for
-- sums below 2 ^ 49; the theorem on the means is stated within that. The length of the mapping of the
-- ring is a product on 32 bits, so the theorem on its blocks asks for pages below 2 ^ 30. Every loop is a recursion on the list it walks or on a number of rounds that
-- its source bounds, so none has fuel;
-- the read loop and the turns of the threads are recursions on the calls and turns that are given.
--
-- Parameters, since they are not part of the program: whether `malloc`, `calloc` and `realloc` find
-- memory, what `time` and `clock_gettime` say, what `read` gives, the fields that `sscanf` reads, what
-- /proc holds, the names that `getnameinfo` finds, the length that `snprintf` returns, `qsort_r`, and
-- the kernel's machine for BPF. The callbacks of a hash table (hash and comparison) are any functions
-- that tell keys apart as an equivalence does. The threads of the pool take turns in any order.
--
-- Not modelled: directory.c, pid.c and str.c, the opening and closing of the log file, what tui.c
-- paints, usage.c and color.c, resolver/service.c and resolver/get_cpu.c, translate.c and jhash.h,
-- sock.c and main.c. Much of these is system calls and output; their own logic is left
-- for later.
pub mod Base
pub mod Config
pub mod Connection
pub mod Domain
pub mod Filter
pub mod FullRead
pub mod Hashtable
pub mod HumanReadable
pub mod Log
pub mod Packet
pub mod Processes
pub mod Queue
pub mod Rate
pub mod Ring
pub mod Sort
pub mod Statistics
pub mod ThreadPool
pub mod Timer
pub mod Tui
pub mod Types
pub mod Vector
