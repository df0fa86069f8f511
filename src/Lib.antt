-- ===== src/Lib.antt =====
-- rtmalloc, a thread-caching memory allocator: a model of its tiers and what they guarantee.
--
-- A request goes down the tiers until one can serve it: the thread's cache of free objects by size
-- class, the transfer cache of the class with its ready batches, the central free list of the class
-- with its spans, the page heap with its free runs of pages, and the operating system. A freed object
-- goes the same way back. Every pointer that is freed is resolved by the page map to its span.
--
--   Build          build.rs: the configuration and the size classes that a build fixes
--   SizeClass      src/size_class.rs: the table of classes, size_to_class
--   Span           src/span.rs: Span, SpanList; Span.Slab is the allocator of the structs
--   Platform       src/platform.rs, src/platform/unix.rs: page_alloc, page_dealloc, page_decommit
--   PageMap        src/pagemap.rs: the radix tree from page ids to spans
--   PageHeap       src/page_heap.rs: allocate_span, deallocate_span and what they call
--   FreeObject     src/span.rs: lists through the first words of free objects
--   Central        src/central_free_list.rs: removal and populate; Central.Insert is insertion
--   TransferCache  src/transfer_cache.rs: the stacks of batches, remove_range, insert_range
--   ThreadCache    src/thread_cache.rs: FreeList; ThreadCache.Cache is the cache and its budget
--   Allocator      src/allocator.rs: alloc, dealloc, realloc with the feature std; Allocator.Large is
--                  alloc_large, Allocator.Variants the features percpu and none,
--                  Allocator.Nightly the feature nightly
--   Sync           src/sync.rs: the spin lock and SpinMutex, by the atomic steps of the threads
--   PerCpu         rseq/src/percpu.rs: PerCpuSlab, the stacks of pointers of each CPU
--   Rseq           rseq/src/ops.rs: the operations on an array of one cell for each CPU; Rseq.Thread is
--                  rseq/src/thread.rs, syscall.rs and abi.rs: how a thread gets its area
--   CpuCache       src/cpu_cache.rs: initialization and refill; CpuCache.Front is the rest
--   Histogram      src/histogram.rs: record and optimal_layout; Histogram.Suggest is suggest_classes
--   Ffi            src/ffi.rs: the exported C functions
--   Tests          concrete states on which the theorems are applied and definitions run
--
-- State is passed explicitly. An address is a natural number and null is 0; the memory of the Span
-- structs and the first words of free objects are functions from addresses, so that lists share and
-- alias them as in the source. The two memories are kept apart: the structs come from slabs of their
-- own. Each tier's state contains that of the tiers below: Backend (the page heap, the page map, the
-- slab and the system) in Central, in Middle (all classes), in Process (with a thread's cache), in
-- Thread (with its TlsState). A method that may panic returns an Option, none for the panic.
--
-- Machine words wrap as in a release build: usize and u32 are remainders, and a subtraction adds the
-- modulus first. page_size is a parameter with the shift that the configuration derives from it.
-- The kernel is outside: mmap answers from a list, and the lengths
-- that it is asked for, munmap and madvise are recorded. Whether the std build's try_with reaches a
-- thread's slot is a field of Thread.
--
-- Loops over a known number of rounds recurse on it. Loops that end by the state carry fuel: the
-- search of the large spans, for which the list's count and one more is given; alloc_span, for
-- which two levels are given; the merging of the histogram, for which as many rounds as there are
-- ranges are given; and the loops of a removal from a central list and the walk to the end of a list in
-- refill, for which the fuel is a parameter: one round more than the list has spans is enough where
-- the spans have the objects.
--
-- The lock itself is a step machine under any schedule of threads. The operations behind it run one
-- after the other, as it makes them: the atomics of the page map and the interleavings that the
-- dropped lock of a central list admits are not modelled, except that the exchanges of the budget
-- counter may fail, with the values that other threads leave as a list. A restartable sequence is one
-- step with its CPU and the point of a possible abort as arguments; the next CPUs and aborts of a
-- thread are a list. The comparison of floating-point ratios in optimal_layout is a parameter, and
-- so are the target of suggest_classes and its sorts. Not modelled either: the bytes of allocated
-- objects, the counters, the printing of the histogram, Windows. What rseq's registration asks of the
-- kernel and of glibc is a parameter.
pub mod Base
pub mod Build
pub mod SizeClass
pub mod Span
pub mod Platform
pub mod PageMap
pub mod PageHeap
pub mod FreeObject
pub mod Central
pub mod TransferCache
pub mod ThreadCache
pub mod Allocator
pub mod Tests
pub mod Sync
pub mod PerCpu
pub mod CpuCache
pub mod Histogram
pub mod Ffi
pub mod Rseq
