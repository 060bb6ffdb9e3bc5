-- ===== src/Lib.antt =====
-- A verification library for the kernel of experiment64, a small x86-64 operating system in C.
--
-- The parts that are modelled, and how they interact. The page allocator hands out physical pages
-- to the heap and the page tables. The making of a pipe and the address ranges of a process are
-- told what their calls of kmalloc answer, so that what is shown of them holds for any answers, the
-- heap's among them. The scheduler switches between threads; a pipe gives the CPU away by
-- schedule() while it waits, and any other thread may then work on the same pipe; a read of a block
-- waits in the same way for the block's buffer. Paths are put into normal form before a file is
-- looked up, part after part, through the file systems that are mounted. The FAT32 file system
-- reads and writes the sectors of its drive through the block cache, whose contract - a sector's
-- bytes, or null - is what its model takes.
--
-- * Base and its children: numbers, Booleans, lists and tables that the models share.
-- * Heap (kernel/mem/heap.c, with KASAN off): kmalloc, kzalloc, kfree and krealloc. A page's
--   header is an entry of `headers`, and the chain of free slots is a list. Page 0 is at the
--   null address: it is never handed out, as pmm_init marks it.
-- * Pmm (kernel/mem/pmm.c, with KASAN off): `Pmm` holds the file's static variables. init is
--   pmm_init, alloc_page, alloc_pages, free_page and free_pages are the functions of the same
--   names. Addresses and counts are 64-bit; only the sum of an entry's base and length wraps, as
--   page numbers stay far below the limit. The bytes that the bitmap's memory held before are an
--   argument.
-- * Pipe (kernel/fs/pipe.c): `Pipe` is pipe_t less its lock. inode_read, inode_write and
--   inode_close are pipe_inode_read, pipe_inode_write and pipe_inode_close; Pipe/Create has
--   pipe_alloc and the freeing, over a record of what kmalloc answers and of what is freed. What other threads do while a call waits is a list of turns.
-- * Path (kernel/lib/path.c): simplified is path_simplify on a buffer that is there;
--   build_absolute is path_build_absolute.
-- * Str (part of kernel/lib/string.c): the comparing, copying and searching functions.
-- * Print (part of kernel/lib/string.c): vcbprintf, its conversions, and vsnprintk. An int is its 32
--   bits and wraps around where the source's overflows; a text is shorter than 2 ^ 31.
-- * Mem (part of kernel/lib/string.c): memcpy, memmove and memset on a memory of bytes, with
--   their loops for alignment and blocks.
-- * Bio (kernel/io/bio.c): the block cache over an abstract storage. init is bio_init; get_blk,
--   bread, bwrite and brelse are the functions of the same names. What other threads do while
--   bread waits for a buffer's lock is a list of turns.
-- * Net (kernel/lib/inet.c, kernel/net/helpers.c): the byte order functions, inet_addr,
--   inet_ntoa_r and checksum.
-- * Arp (kernel/net/arp.c): the cache of addresses and the protocol, between machines that hand
--   each other the packets they have sent; the functions have the source's names.
-- * Dhcp (kernel/net/dhcp.c): the options; get_ip_option, get_dns_servers and set_request_options
--   are dhcp_options_get_ip_option, dhcp_options_get_dns_servers and set_request_dhcp_options.
-- * Keyboard (part of kernel/drivers/keyboard.c): the ring of raw scancodes between the interrupt
--   and a program that reads the device; enqueue_raw and read_raw are keyboard_enqueue_raw and
--   keyboard_read_raw. Keyboard/Keys has keyboard_process_scancode with its tables.
-- * Sort (kernel/lib/sort.c): qsort, over elements of any type. Indices are natural numbers, exact
--   up to 2 ^ 30 elements, above which the source's sum of two indices leaves an int.
-- * Vfs (kernel/fs/vfs.c): the mount table, vfs_finddir, vfs_resolve_path, vfs_mknod, vfs_link and
--   vfs_unlink over file systems that are operations on a state of theirs.
-- * Fat32 (kernel/fs/fat32.c): the allocation table, find_free_cluster and fat32_free_chain;
--   Fat32/Read has fat32_vfs_read, Fat32/Grow the new cluster of a file that grows and
--   fat32_write_cluster, Fat32/Names the two forms of a name, Fat32/Date fat32_datetime_to_unix.
-- * Sched (kernel/task/process.c): sched, schedule, thread_sleep (up to the switch, and
--   thread_resumed after it), thread_wakeup and scheduler_tick, over the lists of processes and
--   threads.
-- * VmArea (kernel/task/process.c): vm_area_init, vm_area_add, vm_area_clone and vm_area_clear.
--
-- Bounds and fuel. A pipe holds 4096 bytes, a path 256 bytes and 64 segments, a time slice 2 ticks.
-- The loop of pmm_alloc_pages has one round of fuel for each page, and each round moves forward.
-- The loop of pipe_inode_write has as much fuel as bytes and turns, and each round uses up one of
-- them. The loop of path_simplify has more fuel than the buffer has bytes, and each round consumes
-- one at least. The loops of memcpy and memmove have the number of bytes as fuel. The recursion of
-- qsort has one level of fuel for each element. fat32_free_chain has a round of fuel for each
-- cluster and four more, and each round but the last ones frees a cluster in use; the loop of
-- fat32_vfs_read has one more than the bytes to read, and each round reads one at least. vcbprintf
-- has one more than the characters of its format. The readers of the DHCP options have 128 rounds,
-- and each uses up a byte. The folding of the checksum has three rounds, of which two are enough
-- for 32 bits.
--
-- Not modelled: locks and the interrupt flag, since each operation runs under its lock; the
-- context switch, which is assembly; the other drivers, page tables, the other file systems, system
-- calls and user programs. The vendored game under user/doom is no part of the system's own logic.
pub mod Arp
pub mod Base
pub mod Bio
pub mod Dhcp
pub mod Fat32
pub mod Heap
pub mod Keyboard
pub mod Mem
pub mod Net
pub mod Path
pub mod Pipe
pub mod Pmm
pub mod Print
pub mod Sched
pub mod Sort
pub mod Str
pub mod Vfs
pub mod VmArea
