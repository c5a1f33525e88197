-- ===== src/Lib.antt =====
-- cpuminer is a CPU miner for bitcoin. `miner_thread` of cpu-miner.c asks the work thread for a unit
-- of work over a thread queue (util.c, on the lists of elist.h), searches its nonces with one of
-- several scans (sha256_*.c), tests a hash with `fulltest` (util.c), takes the next scan limit from
-- the time of the last scan, and sends solutions back over the queue. The work thread decodes and
-- encodes work units in hexadecimal and talks JSON-RPC.
--
-- Base: Boolean tests and unsigned words on numbers (Base/Words), lists (Base/Lists), signed numbers
--   (Base/Int). Bits: the laws of bitwise operations on words that the round functions need.
-- Sha: the eight state words. Sha/Spec: the compression function of FIPS 180-4. Sha/Generic:
--   `sha256_transform` of sha256_generic.c with its unrolled rounds. Sha/Cryptopp:
--   `SHA256_Transform` of sha256_cryptopp.c with its ring of 16 words and rotating roles. A read
--   outside the input is `none`. Words are natural numbers, and each operation that can leave 32 bits
--   takes the remainder.
-- Scan: `scanhash_c` and `scanhash_cryptopp`, each with its loop. The fuel is the limit on the nonce
--   plus one: each round counts the nonce up, and the limit ends the loop. The nonce is counted
--   modulo 2^32 and the rounds modulo 2^64, as `unsigned long` is on the hosts of the 64-bit build.
--   What stands in memory behind `hash1` and when a restart is asked for are parameters.
-- Target: `fulltest`, `swab32` and `swap256` of util.c and miner.h, for a little-endian host. A buffer
--   of 32 bytes is its eight words.
-- Hex: `bin2hex` and `hex2bin` of util.c, with the C standard's `sscanf` on two characters.
-- Work: `struct work`, `jobj_binary` and `work_decode` of cpu-miner.c. The JSON library is a parameter.
-- Elist: the lists of elist.h, on a heap with addresses, in which every access to an object that is
--   not alive is a fault. Queue: the thread queues of util.c on that heap. One call holds the mutex,
--   so it is one step; a wait on the condition variable is a parameter, and what `calloc` returns is
--   an argument. Queue/Fifo: the contract of a queue and its refinement by runs of calls.
-- TimeVal: `timeval_subtract` of util.c, and the new scan limit in `miner_thread`. Sums of seconds and
--   microseconds are exact there, as for times of day; the product that is computed in `int` is `none`
--   where it overflows.
-- Texts: the string functions of the C library on options. Options: `parse_arg`, `parse_config`,
--   `parse_cmdline` of cpu-miner.c and the login that `main` joins.
--   An exit through `show_usage` is `none`. `atoi` is exact, as it is where the value fits an `int`.
-- Via: `scanhash_via` of sha256_via.c, with the hash instruction as a parameter and the fuel of the
--   other scans.
-- Workio: the requests of the work thread and their repetition. One attempt of a loop takes one unit of
--   fuel. Commands: the messages to the work thread, and the memory that they own.
-- Rpc: `json_rpc_call` of util.c, with libcurl and the JSON library as parameters; the
--   body is missing where no chunk came, and the library may then read through NULL.
-- Net: `all_data_cb`, `upload_data_cb` and `resp_hdr_cb` of util.c, which libcurl calls, and the address
--   that `longpoll_thread` of cpu-miner.c requests. Longpoll: its request loop, on a list of answers,
--   and `restart_threads`.
-- Simd: the vector instructions of SSE2 on four words. FourWay: sha256_4way.c, whose unrolled lines are
--   loops over the index of the line. FourWay/Scan: `ScanHash_4WaySSE2`, where the fuel is the number of
--   batches; FourWay/Search says how much is enough. Amd64: `scanhash_sse2_64` of
--   sha256_sse2_amd64.c. Asm32: `scanhash_asm32` of sha256_cryptopp.c.
-- Miner: the `switch` of `miner_thread` over the scans, and what it leaves in the work unit.
-- Main: `main` of cpu-miner.c from the command line to its wait for the work thread.
-- Threads: `miner_thread`, `get_work`, `submit_work` and `workio_thread` of cpu-miner.c beside each
--   other, as a step relation on their queues. A call of a queue is one step, as Queue/Fifo states it;
--   the scan is a parameter there, which Miner fills. Threads/Outstanding follows a request,
--   Threads/Due and Threads/Served its way to the thread that asked, Threads/Submitted what is sent
--   back, and Threads/Progress the work thread by itself.
-- Tests: known inputs, and each theorem applied to one.
--
-- Not modelled: the machine code of the assembly routines and the instruction of VIA PadLock, which are
-- parameters; the transfer itself and the log; the scheduling policy and the affinity of threads; and
-- the bundled JSON library, whose calls are parameters.
pub mod Base
pub mod Bits
pub mod Sha
pub mod Target
pub mod Scan
pub mod Hex
pub mod Work
pub mod Texts
pub mod Options
pub mod Elist
pub mod Queue
pub mod Workio
pub mod Net
pub mod Longpoll
pub mod Via
pub mod Simd
pub mod FourWay
pub mod Amd64
pub mod Threads
pub mod Asm32
pub mod Miner
pub mod Main
pub mod Commands
pub mod Rpc
pub mod TimeVal
pub mod Tests
