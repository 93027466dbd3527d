-- ===== src/Lib.antt =====
-- A verification of RISCV-MTE's allocator: LLVM's Scudo hardened allocator with memory tagging
-- on the RISC-V Zimte extension (LLVM_SCUDO_MTE/).
--
-- The program. `malloc` and `free` reach the allocator through wrappers. An allocation is
-- rounded up to a size class and taken from a primary allocator, by way of a thread's local
-- cache, or mapped by the secondary allocator. In front of each chunk stands a header of 8 bytes
-- with a checksum, which `free` loads, checks and rewrites. A freed chunk may wait in the
-- quarantine, in batches of chunks, first in its thread's cache and then in the global one,
-- until it is recycled. With memory tagging the chunk's granules get a random tag, and the
-- pointer that the caller receives carries it.
--
-- The files.
--   Base, Bits       names of the libraries, Boolean tests, lists and machine words; bit operations
--                    as arithmetic
--   Common           LLVM_SCUDO_MTE/common.h: isPowerOfTwo, roundUp and the like (Common/Align), the
--                    bit indices (Common/Index), shuffle (Common/Shuffle), computePercentage
--                    (Common/Percent)
--   Checksum         LLVM_SCUDO_MTE/checksum.h, and computeChecksum of chunk.h
--   Chunk            LLVM_SCUDO_MTE/chunk.h: the header as a word (Chunk/Pack), storeHeader,
--                    loadHeader and isValid (Chunk/Load)
--   Memtag           LLVM_SCUDO_MTE/memtag.h and memtag_zimte.h in the Zimte configuration: storeTags
--                    (Memtag/Store) and setRandomTag (Memtag/Random)
--   Options          LLVM_SCUDO_MTE/options.h
--   SizeClassMap     LLVM_SCUDO_MTE/size_class_map.h: the fixed map for every configuration that
--                    fits (SizeClassMap/Fixed), and the configurations of the source
--                    (SizeClassMap/Configs)
--   Quarantine       LLVM_SCUDO_MTE/quarantine.h: the accounting of a cache (Quarantine/Cache),
--                    mergeBatches (Quarantine/Merge), recycle (Quarantine/Recycle), and put, drain and
--                    drainAndRecycle (Quarantine/Global)
--   Combined         LLVM_SCUDO_MTE/combined.h: memset and memcpy as changes of bytes
--                    (Combined/Bytes), where the header of a pointer is found (Combined/Pointer),
--                    deallocate with quarantineOrDeallocateChunk and retagBlock
--                    (Combined/Deallocate), the callback of the quarantine (Combined/Recycle), and
--                    allocate with initChunk and initChunkWithMemoryTagging (Combined/Allocate): the
--                    place of a chunk in its block (Combined/Allocate/Needed), the search for a block
--                    (Combined/Allocate/Classes), initChunk (Combined/Allocate/Placed), and the whole
--                    (Combined/Allocate/Returned, Combined/Allocate/Refused), and the tag of the
--                    header's granule (Combined/Allocate/HeaderTag); reallocate
--                    (Combined/Reallocate) in place (Combined/Reallocate/Resized) and of a chunk that
--                    was freed (Combined/Reallocate/Rejected)
--   IntrusiveList    LLVM_SCUDO_MTE/list.h: the singly and the doubly linked list over pointers,
--                    whose nodes are a segment of a linked structure (IntrusiveList/Segment), with
--                    the operations at their ends (IntrusiveList/Singly/Ends, Doubly/Ends) and in
--                    their middle (IntrusiveList/Singly/Middle, Doubly/Insert, Doubly/Remove), and
--                    the consistency check (IntrusiveList/Consistent). A hard check of the doubly
--                    linked list that fails is the result `none`; debug checks are left out
--   LocalCache       LLVM_SCUDO_MTE/size_class_allocator.h: the cache of one size class over an
--                    interface of the primary allocator (LocalCache/Conservation)
--   Release          LLVM_SCUDO_MTE/release.h: the packed counters of a page map (Release/PageMap),
--                    the recorders (Release/Recorder), the range tracker (Release/Tracker), the
--                    pool of buffers (Release/Pool), the context that marks free blocks
--                    (Release/Context), and the walk over the pages (Release/Walk)
--   Wrappers         LLVM_SCUDO_MTE/wrappers_c_checks.h: the overflow checks (Wrappers/Checks)
--   Tests            runs at concrete inputs
--
-- The correspondence. A definition has the name of the function that it translates, in snake
-- case. A machine word is a natural number, and every operation that may wrap is written with
-- its modulus (Base/Words). A function that writes through pointers returns the values that it
-- writes. A debug check is a precondition of a theorem. The memory of headers and contents is a
-- function that gives the word of 8 bytes at each address that is a multiple of 8, and the memory
-- of tags one from granules of 16 bytes to tags. The check of a pointer's tag against the tag of the
-- granule, at a load or a store, is not part of the model: a run that faults there is a run that
-- the model continues.
--
-- Parameters. The instructions `gentag`, `addtag` and `settag` behind the compiler's built-ins
-- are the record `Zimte`; what the whitepaper of the extension says of `addtag` and `settag` is
-- the record `IsZimte`. Of `gentag`, on which memtag.h and the whitepaper disagree, a theorem assumes
-- only what it answered. The function behind a hardware CRC32 instruction is the parameter `crc`. The
-- entropy that a hart draws a tag from is an argument, and so are, in the quarantine, the
-- address of a new batch and whether the lock for recycling is free. The primary allocator
-- behind a local cache is the record `Primary` of any functions. What the size class caches and the
-- secondary allocator answer to `allocate` are functions, and so is the recorder of released pages,
-- with what it counts in `RecordsPages`.
--
-- Fuel. The loop of storeTags runs on fuel, and the theorems ask for more fuel than the range
-- has granules, with which the loop ends. retagBlock of combined.h passes its fuel on. The loop of
-- checkConsistency runs on fuel too, and ends within the size of the list. All other loops are
-- structural.
--
-- Not modelled: the allocators behind the size
-- classes, the bodies of the wrappers, and all that talks to the operating system (mappings,
-- locks, clocks, reports).
pub mod Base
pub mod Bits
pub mod Common
pub mod Checksum
pub mod Chunk
pub mod IntrusiveList
pub mod LocalCache
pub mod Memtag
pub mod Options
pub mod Quarantine
pub mod SizeClassMap
pub mod Combined
pub mod Wrappers
pub mod Release
pub mod Tests
