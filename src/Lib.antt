-- ===== src/Lib.antt =====
-- The pure logic of the ParanukOS kernel: the crates that the kernel links and that hold no
-- unsafe code.
--
-- Sched.antt models crates/kernel-sched/src/lib.rs. `Scheduler` is the struct of that name; its
-- arrays are lists, whose lengths the invariant fixes, and its methods return the new state
-- beside their result. `Sched.Model` is an abstract scheduler without arrays: tables by thread id
-- and a list of ready threads. Sched/Slots.antt is about the ring buffer, Sched/Counts.antt about
-- ids in a list, Sched/Invariant.antt holds the invariant, Register, Rotate and Exit prove the
-- operations against the abstract ones, and Sched/Run.antt is about whole histories of calls.
--
-- MemoryMap.antt models crates/kernel-memory/src/map.rs: `MemoryKind`, `Region`, `MemoryMap` and
-- the functions of those names. A buffer is a list of bytes. MemoryMap/Kinds.antt is about the
-- numbers of the memory types, Parse about `from_bytes`, Range about `get` behind the last
-- descriptor, Top about `ram_top`.
--
-- Frame.antt models crates/kernel-memory/src/frame.rs, the bitmap allocator that is built from
-- such a map. The two bitmaps are lists of bytes; Frame/Bitmap.antt reads and writes their bits,
-- Invariant holds the invariant, Runs is about `find_free_run`, Alloc and Free about the
-- operations of those names, FirstFree about `first_free_in`, Init about `FrameAllocator::init`:
-- Marks for its inner loop, Regions for its outer loop, Filled and Outcome for its result. The
-- inner loop of `init` walks addresses on fuel, one more than the length of the range in bytes,
-- and the loop of `alloc_contiguous` and the searches count the rounds left.
--
-- BootInfo.antt models crates/boot-info/src/lib.rs, the structure that the boot loader hands to
-- the kernel, its checks, and the exit codes of QEMU; BootInfo/Laws.antt holds what follows from
-- the checks.
--
-- Image.antt models crates/kernel-image/src/lib.rs: `validate`, the iterator over the segments of
-- an ELF image, and in Image/Checks.antt the loops over it, which share one loop, `for_each`, on
-- fuel one more than the number of program headers. Image/Validate.antt is about `validate`,
-- Image/Headers.antt gives the program headers as a list, Image/Checks/Walk.antt shows that a
-- loop is a walk along that list, and Image/Checks/Segments.antt is about `check_segments`,
-- Image/Checks/Entry.antt about `check_entry`, Image/Checks/Ranges.antt and
-- Image/Checks/Overlap.antt about `check_no_overlap`.
--
-- Heap.antt models crates/kernel-memory/src/heap.rs, the first-fit free list inside a byte arena,
-- with `FreeList::alloc` in Heap/Alloc.antt and `FreeList::dealloc` in Heap/Dealloc.antt. The
-- arena is a list of bytes, and the list of free blocks stands in the headers of the blocks, as
-- in the code. Heap/Blocks.antt holds the abstract view, the arena as a sequence of blocks, and
-- the invariant; Headers, Outside, Sizes, Count, Coalesced, Join and Before are about one aspect
-- of it each. Below Heap/Alloc, Place is about where a payload goes, Carve and Placed about the
-- cut of a block, Room about what is promised, Fitted and Search about the loop. Below
-- Heap/Dealloc, Around is about the walks along the list, Next, Previous and Merge about joining,
-- Release and Refused about the whole call. Heap/Start.antt is about `init`, Heap/Payload.antt
-- about writes of the users of the heap, Heap/Again.antt about `alloc` and `dealloc` together,
-- Heap/Live.antt about the payloads of the blocks in use, Heap/Run.antt about whole histories of
-- calls. The loops run on the rounds that the guard of the code, `max_blocks`, leaves; the
-- theorems show that these suffice on a valid heap.
--
-- Paging.antt models crates/kernel-memory/src/paging.rs, `build` of the tables of the identity
-- map. The address of the arena of tables is a parameter, `base`, and the arena a list of bytes.
-- Paging/Entries.antt says what each entry of the tables must be, numbered through all tables,
-- independently of the loops. Paging/Writes.antt is about one entry that is written,
-- Paging/Filling.antt about the loops over entries and tables and Paging/Bodies.antt about their
-- bodies, Paging/Steps.antt and Paging/Filled.antt about all the writes in their order,
-- Paging/Built.antt about the whole call. Its loops are recursions on lists and on the number of
-- entries left.
--
-- A panic of the code (an index out of range, a failed debug assertion, an overflow under
-- overflow checks) is `none`; a Rust `Result` is `Result`, inside it. `usize` and `u64` are
-- natural numbers with a check against 2^64 where the code adds or subtracts. Loops over arrays
-- are recursions on lists or on the number of rounds left; only the two loops named above run on
-- fuel.
--
-- Not modelled: crates/kernel-memory/src/user_map.rs, which writes to raw memory; what needs the
-- machine (interrupt entry, context switches, port input and output, control registers), the boot
-- loader's use of the firmware, and the messages of the `Display` instances.
pub mod Base
pub mod BootInfo
pub mod Frame
pub mod Heap
pub mod Image
pub mod MemoryMap
pub mod Paging
pub mod Sched
