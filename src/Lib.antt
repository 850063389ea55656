-- ===== src/Lib.antt =====
-- xNVMe: a library for non-volatile memory devices, over many backends (lib/, include/).
--
-- A user gets a queue (lib/xnvme_queue.c), takes a command context from its pool, fills in an NVMe
-- command and passes it on (lib/xnvme_cmd.c). A context with the synchronous mode goes to the
-- synchronous functions of the backend, one with the asynchronous mode to its asynchronous ones,
-- and then completes in a callback while the user pokes or drains the queue.
--
-- The parts and their files:
-- - Common: names from the libraries, Boolean tests, lists over native numbers, `Ret` for an `int`
--   that is a value or minus an errno, machine words.
-- - Mem: a byte-addressed memory with memcpy(), memset() and memcmp() (Mem/Copy), the copying of
--   segments to consecutive addresses (Mem/Gather), and big-endian numbers (Mem/Endian, for
--   include/xnvme_endian.h).
-- - Cmd: the fields of `struct xnvme_spec_cmd` and `struct xnvme_cmd_ctx` that the code reads or
--   writes (include/libxnvme_spec.h, include/libxnvme_cmd.h). A dword is a number, a field of bits
--   is read and written by division and remainder.
-- - Queue: `struct xnvme_queue` with its pool of contexts, initialization and callbacks
--   (lib/xnvme_queue.c); Queue/Pass: xnvme_cmd_pass() and its variants (lib/xnvme_cmd.c), and the
--   calls that a callback may make; Queue/Drain: poke and drain; Queue/Pow: the
--   capacities that are taken; Queue/Pool: what initialization and the pool promise. A context is known by its pointer, a number; `ctxs` is the memory behind
--   the pointers, `be` the part of the queue that belongs to the backend, and `world` what the
--   device and the user work on.
-- - Emu: lib/xnvme_be_cbi_async_emu.c, asynchronous commands emulated by synchronous ones. Its two
--   lists of entries are lists, a NULL entry that is followed is `none`. Emu/Init and Emu/Inv: the
--   invariant; Emu/Fifo: what a device sees of the emulation.
-- - Nil: lib/xnvme_be_cbi_async_nil.c, a queue that completes commands without running them.
--   Nil/Reap: poking where callbacks call nothing; Nil/Resubmit: where they submit again.
-- - Ramdisk: lib/xnvme_be_ramdisk_sync.c, commands on a region of memory. Ramdisk/Media: reading,
--   writing, comparing; Ramdisk/Vectors: vectored commands; Ramdisk/Scopy: simple copy.
-- - Pi: lib/xnvme_pi.c, protection information; the checksum functions of lib/xnvme_crc.c (or of the
--   ISA-L library) are the parameter `Crc`. Pi/Fields: the setters and getters; Pi/Layout: the
--   context and the bytes that a step touches; Pi/Verify and Pi/Roundtrip: verification of what was
--   generated; Pi/Decides: what a result of verification says.
-- - Geo: the geometry of a device (lib/xnvme_dev.c); Geo/Derive: its relation to the identify data;
--   Geo/Identify: how that data is read, in host memory and from a backend whose answers do not
--   depend on earlier commands. Ramdisk/Admin: the admin commands of the ramdisk and its size
--   (lib/xnvme_be_ramdisk_admin.c, lib/xnvme_be_ramdisk_dev.c), on the bytes of a data structure;
--   Ramdisk/Identify: the ramdisk identified.
-- - Lba: ranges of logical blocks (lib/xnvme_lba.c); Lba/Ranges: what they cover.
-- - Cref: the table of references to shared controllers (lib/xnvme_be_cref.c); Cref/Counts: how each
--   operation changes the references; Cref/Traces: sequences of operations.
-- - Adm: the Get Log Page command (lib/xnvme_adm.c); Adm/Log: its fields; Adm/Commands: the other
--   admin commands. Topology: resets and registers by pseudo commands (lib/xnvme_topology.c).
-- - Thrpool: lib/xnvme_be_cbi_async_thrpool.c, commands run by a pool of threads. Its operations are
--   functions; Thrpool/System: the threads, counted by where they stand, and the user as two families
--   of steps (`Work`, `Use`) that interleave in any order, where a section under a mutex is one step
--   and the calls of pthread succeed. Thrpool/Init, Thrpool/Inv: the initial state and the
--   invariant; Thrpool/Order: what becomes of each command; Thrpool/Rest: how the threads
--   come to rest; Thrpool/Live: progress.
-- - Nvm: the NVM commands (lib/xnvme_nvm.c), each the fields it writes and its payload, passed on by
--   xnvme_cmd_pass(). Nvm/Fields: fields read back; Nvm/Roundtrip, Nvm/Media: commands through the
--   emulated queue to a ramdisk. File: the same for files (lib/xnvme_file.c).
-- - Znd: the zoned commands and the report of zones (lib/xnvme_znd.c). Znd/Fetch: fetching a report
--   in chunks, over the synchronous interface of the device; Znd/Chunks: the size of a chunk;
--   Znd/Fields, Znd/Complete, Znd/Whole: the report on a device that answers; Znd/Find: the search;
--   Znd/Single: the descriptor of one zone.
-- - Platform: opening and closing devices (lib/xnvme_platform.c, lib/xnvme_dev.c) over the table of
--   Cref, with the options (lib/xnvme_opts.c); Platform/Refs: what becomes of the references to
--   controllers; Platform/Choice: the options and the interfaces chosen. Platform/Scan: enumeration,
--   with the scan of the platform as a list of what it reports; Platform/Scan/Refs: the references.
-- - Aio: lib/xnvme_be_cbi_async_posix.c, commands run by the aio functions of POSIX, which are the
--   parameter `PosixAio`. Aio/Slots, Aio/Held, Aio/Inv: its invariant.
-- - Uring: lib/xnvme_be_linux_async_liburing.c, commands run by io_uring; the functions of liburing on
--   a ring are the parameter `Liburing`. Uring/Inv: what `outstanding` counts. Uring/Setup: set-up and
--   termination, with the system as the parameter `UringSys`; Uring/Setup/Shared: the ring that polled
--   queues share.
-- - Libaio: lib/xnvme_be_linux_async_libaio.c, commands run by libaio, which is the parameter
--   `Libaio` with the ring behind its context. Libaio/Inv, Libaio/Reap: what `outstanding` counts.
-- - Block: lib/xnvme_be_linux_block.c, zone management on a block device; the calls of ioctl() are the
--   parameter `Zoned`. Block/Io: the dispatch of I/O commands; Block/Scan, Block/Report: what a report
--   says. Block/Admin: the admin commands, with the result of reading each attribute of sysfs in
--   `Attrs`; Block/Geometry: the geometry they lead to.
-- - Kvs: the key-value commands (lib/xnvme_kvs.c). The key of a command is two fields of bytes.
-- - Psync: lib/xnvme_be_cbi_sync_psync.c, commands run by pread(), pwrite() and fsync(), which are
--   the parameter `Posix`. Psync/Agrees: beside the ramdisk; Psync/Errors: short transfers.
-- Callbacks are any function from the pointer of the context and the state to a list of calls
-- (`Act`): taking and putting back contexts, preparing them, changing the user's memory, submitting.
-- They do not poke the queue they are called from.
--
-- Bounds and fuel: draining runs on fuel, of which the emulated queue needs two rounds;
-- fetching a report of zones runs on fuel, of which it needs one round more than it has zones;
-- all other loops are bounded by a count that the code computes before them. uint32_t and
-- uint64_t values wrap around where the code computes with them.
--
-- Not modelled: the backends that hand commands to an operating system or to another library
-- (FreeBSD, macOS, Windows, SPDK, libvfn, uPCIe, and of Linux all but the queues of io_uring and
-- libaio and zone management), the scans of the platforms, the buffer allocators, the command-line
-- parser and the pretty-printers, and the generated and third-party parts of the repository.
pub mod Common
pub mod Mem
pub mod Cmd
pub mod Queue
pub mod Adm
pub mod Aio
pub mod Block
pub mod Cref
pub mod Emu
pub mod File
pub mod Geo
pub mod Kvs
pub mod Lba
pub mod Libaio
pub mod Nil
pub mod Nvm
pub mod Pi
pub mod Platform
pub mod Psync
pub mod Ramdisk
pub mod Thrpool
pub mod Topology
pub mod Uring
pub mod Znd
