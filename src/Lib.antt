-- ===== src/Lib.antt =====
-- Verification of sysrust, an x86_64 kernel in Rust: its memory managers and page tables, its scheduler,
-- its locks, its network protocols, its file systems in memory, and the lexer of its compiler.
--
-- The parts and how they interact. At boot, src/pmm.rs builds a bitmap of physical pages from the
-- memory map. src/heap.rs maps pages that it takes from the page allocator and cuts them into blocks for
-- kmalloc and kfree. src/thread.rs takes the stacks of its threads from the heap and switches between
-- them, on a timer tick or when a thread yields. The network card hands frames to src/net.rs, which
-- hands them to src/arp.rs or src/ipv4.rs, and the latter to src/icmp.rs, src/udp.rs or src/tcp.rs; these
-- send through ipv4::send, which asks arp::resolve for the address of the next hop. src/vfs.rs keeps the
-- tree of nodes, on the heap, that src/ramfs.rs, src/initrd.rs and src/devfs.rs fill; src/vmm.rs takes
-- its page tables from src/pmm.rs.
--
-- Files, with the code that each is about:
--   Common, with Tests, Tables, Loops, Bits, Order: no code of the kernel. Boolean tests on numbers,
--     static arrays as functions of the index (Table), counted loops with and without an early return,
--     the bits of machine words, well-founded order.
--   Pmm: src/pmm.rs and the memory map entries of src/multiboot.rs. The state is the bitmap, FREE_PAGES
--     and TOTAL_PAGES. init, mark_region_free, mark_region_used, reserve_range, alloc_page and free_page
--     keep their names. Bitmap, Regions, Counting, Boot and Alloc hold the proofs.
--   Vmm: src/vmm.rs. The state is memory by 8-byte words and the address of the PML4; the operations keep
--     their names. Tree gives each page table its place in the tree, Walk and Path are about installing
--     a table and writing an entry, Supply says what is asked of the page allocator and that src/pmm.rs
--     does it, Mapping follows one level of the walk, Pages the whole walk, Translation the entry it
--     ends at, and Outcome and Ranges are about the translation after map_page, map_range and
--     unmap_page. A directory entry with bit 7, such as boot.s writes for its 2 MiB pages, is a leaf
--     there: the theorems are about addresses with no such entry on the way, as those above 4 GiB are,
--     where src/elf.rs and the brk call of src/syscall.rs map pages. Tests has the tables of boot.s.
--     Exhausted is about an allocator without a page.
--   Heap: src/heap.rs. The linked list of headers is a list of blocks in the order of the links, each
--     with its address. Pages come from a PageSource, a record with a state and alloc_page, so that the
--     theorems hold for every page allocator; Supply takes the one of src/pmm.rs. Tiling says that the
--     headers tile the mapped pages; Coalesce, Replace, Contents, Fit, Expand lead to Malloc, RoundTrip
--     and Supply.
--   Thread: src/thread.rs. The state is the table of 32 threads with the current slot, the next id and
--     the stack to free. What the code does to the machine, kfree and context_switch, is a list of
--     effects. Round, Running, Fairness, Create and Lifecycle hold the proofs.
--   Net: byte order and frames of src/net.rs, with its receiver in Net/Ethernet. Net/Checksum, Net/Ipv4
--     and Net/Delivery are about src/ipv4.rs; Net/Arp, Net/Cache and Net/Resolution about src/arp.rs;
--     Net/Udp, Net/Ports and Net/Datagrams about src/udp.rs; Net/Icmp and Net/Ping about src/icmp.rs.
--   Net/Tcp: src/tcp.rs. Receive is the handler rx with one function per state, Calls the functions
--     connect, send, recv and close; Fifo, Segments, Transitions, Machine and Handshake hold the proofs.
--   Ramfs: src/ramfs.rs. Growth is about the loop that doubles the capacity, Writing about reads after a
--     write, and Nodes has create_file_in and create_dir_in on the tree of Vfs.
--   Vfs: src/vfs.rs. A node is a record at its address, with the list of its children; the state is
--     the table of nodes and the root. Paths has resolve_path and mkdir_p, Unlinking unlink and
--     unlink_path, Descriptors the table of open files, each with the names of the code. Components is
--     about the components of a path, Lookup about finddir, and Trees, Making, Attaching, Entering and
--     Created about mkdir and mkdir_p. Starting has init and the calls that reach into the other
--     parts. The heap is a NodeHeap, and Allocator says what is asked of it; OnHeap shows that heap.rs
--     keeps to it, which Ramfs/OnHeap uses too. Freeing has what unlink frees, straight on Heap,
--     and Removing the child list without a child.
--   Initrd: src/initrd.rs, on memory by bytes; Image is about the format of the archive.
--   Devfs: src/devfs.rs; Console is about reading a line.
--   Fat16: src/fat16.rs, on a drive of sectors, some of which may be bad. Directory has the root
--     directory, Files read_file and write_file, Mount the start, each with the names of the code.
--     Clusters is about runs of sectors, Reading, Writing and Rounds about the two loops over
--     clusters, Chains about the table, Entries and Target about the directory, Found, Settled and
--     Saved about whole calls, Kept and Others about the other files, Reloaded and Remount about a new
--     start, and Names and Listing about what they are named for.
--   Rc/Emit: src/rc/emit.rs. The state is its four statics; Buffer is about what bytes do to the code
--     buffer, Patching about the placeholders of jumps.
--   Rc/Lex: src/rc/lex.rs. Tokens has its constants, Operators the match on symbols and the public calls;
--     Progress and Scan are about what a call of next reads.
--   Rc/Sym: src/rc/sym.rs. Builtins has its init, Lookup is about finding a name, and Scopes about the
--     calls of a program with nested blocks.
--   Strings: src/string.rs on memory by bytes. Terminated is about strings with a terminator, Moves about
--     the copies of memory, and Compare, Copies, Search and Atoi about the routines they are named for.
--   Sync: the spinlocks over the flags register and the mutex of src/sync.rs. Nesting is about critical
--     sections inside each other.
--   The Tests modules run the models on concrete input and apply the theorems there.
--
-- Machine words. A u16, u32 or u64 is a number with its wrap-around written out; an index is compared
-- with its table as in the code. Words that are stored and read back in network order are bytes.
--
-- Bounds. The bitmap of Pmm has a number of words that is a parameter (the kernel has 32768); the
-- theorems say which bound they need. The loops of the code run over a table or a list and are
-- structural recursions, but for three kinds. The doubling loop of ramfs_write runs on fuel: 32 rounds
-- are enough for a write that ends by 2^31, and no fuel is enough above. The loops of src/string.rs
-- that run up to a terminator, those of src/vfs.rs over a path, and the one of src/rc/lex.rs over
-- spaces and comments need more fuel than there are bytes. The loops of src/fat16.rs over chains need
-- more fuel than the size in bytes, and more than 65530 to free an old chain, which is enough for
-- chains in a circle too.
--
-- Time and interrupts. A loop that waits for the timer is a list with one entry for each round before
-- the time is up; the entry holds the packets that interrupts deliver during that round. Any such list
-- is allowed, so that the theorems hold for every timing.
--
-- Hardware. The MAC address of the card, the stack pointer at a context switch and the timer at a call
-- are arguments. The spinlock around the ARP table only masks interrupts on the single core and is
-- left out there.
--
-- Not modelled: the nodes that src/fat16_vfs.rs makes of the files on the disk, the names of
-- src/dns.rs, the loader, the system calls, the compiler in src/rc but for its lexer, symbols and
-- emitter, the shell and the editor, the allocator of sysrust-rt, and the code that only drives
-- devices. A protocol above IPv4 hands bytes to ipv4::send and does not see the wait for an address
-- inside it; what the calls of ipv4::send in interrupts do to its statics meanwhile is an argument of
-- the model of send.
pub mod Common
pub mod Heap
pub mod Pmm
pub mod Thread
pub mod Net
pub mod Ramfs
pub mod Rc
pub mod Strings
pub mod Sync
pub mod Vfs
pub mod Initrd
pub mod Devfs
pub mod Vmm
pub mod Fat16
