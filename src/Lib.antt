-- ===== src/Lib.antt =====
-- A verification library of iel, an event loop library in C. Each module models the C code of one
-- part by executable definitions over explicit states, and proves what makes the part correct.
--
-- Base        shared by the models: C tests, unsigned 32 and 64 bit integers that wrap, arrays as
--             lists, and masks and fields of words as arithmetic.
-- TagPtr      src/tagptr.c and include/iel_priv/tp_tagh.tpl.h: pointers with a tag in their unused
--             bits. A pointer is its integer value; CPUID is a parameter.
-- Que         include/iel_priv/que.tpl.h (used by src/quep.c and src/backends/iou.c): a queue in chunks
--             that a growing map points to. The map is a function to chunks, where `none` stands for an
--             entry that owns no chunk, so a read through it, a write past the map and a second
--             free are faults. The allocator is a parameter of each operation.
-- Bitmap      include/iel_priv/bitmap.h: the bitmap of free file slots, a list of 64 bit words.
-- MinHeap     src/minheap.c: the binary min-heap, in the whole allocated block of nodes.
-- Iou         src/backends/iou.c: Iou/Submit is submission to the ring and its overflow queue, timers,
--             callbacks for later and queries; Iou/Files is the registration of files; Iou/Setup is
--             the construction and the deletion of a context, as the resources that it holds, and the
--             lengths of the shared mappings;
--             Iou/Drain is the part of lrun1 that moves the overflow queue into the ring; Iou/Turn is
--             exeq, io_uring_enter, the loop over the completions and lrun1; Iou/Vtable is vtsetup and
--             the two ways to call a backend (include/iel/backends.h); Iou/Flow is the way of an entry
--             through submission, overflow and drain to the kernel, as a step relation, whose drains are
--             those that lose nothing: the batch finds room behind the pending entries and before the
--             end of the ring, and is all of the queue or ends where its chunk ends. The kernel's constants and
--             answers are parameters, and so are the callbacks and the rest of the world that they
--             work on.
--
-- Dev         the programs under dev/. Of dev/be/iou.c, Dev/Client is the echo client (amain_c and its
--             callbacks), Dev/Echo the echo server (tcpecho_read, tcpecho_write and the part of amain_s
--             that starts it), Dev/Cat the copying of input to output, and Dev/Soon the loop of amain_s
--             that queues tagged tasks by esoon, with taskcb and the run of the tasks; a tagged pointer
--             is the pair of its block and its tag. The answers of the backend, of malloc and of the
--             kernel are parameters that may depend on all calls made so far; a program's memory and
--             descriptors are the list of what it holds. When the echo server gives a socket back, the
--             kernel is taken to grant the update of the slot. Dev/QueTest is main of dev/que.c, which tests
--             the queue with its assertions; the allocator's answer may differ from call to call.
--             Dev/HeapTest is dev/minheap_test.c, with the clock as a parameter, and Dev/TagTest is
--             dev/tagptr.c, with CPUID and the two alignments as parameters.
--
-- A fault (an access out of bounds or through a pointer that is not live) is the result `none` of an
-- operation; the error results of the C code are values. A loop is a function on a number of rounds,
-- and running out of rounds is `none` as well, so each theorem that states a result also states that
-- the rounds suffice: `sup` has one per level above the node, `sdn` one per node, `pop_to` one per chunk,
-- `scan_clear` one per word, exeq one per position from the queue's first chunk to its end, the
-- walk over links one per queued entry, the loop over the completions one per completion.
--
-- How the parts meet: the io_uring backend keeps a queue of entries that did not fit the submission
-- ring and two queues of callbacks, instances of the template, and a bitmap of free file slots. lrun1
-- runs the callbacks by exeq, takes blocks of the overflow queue by `pop_to`, and delivers completions to
-- callbacks, which may submit and queue again.
--
-- Not modelled: the addresses of the shared mappings in lnew; the listing of the ring that debug
-- builds print; src/alloc.c, src/errno.c and src/init.c, which only call other code; the macros of the
-- preprocessor; and, in dev/be/iou.c, main, the callback of the timer, and the part of amain_s that starts
-- the copying and the timer.
pub mod Base
pub mod TagPtr
pub mod Que
pub mod Bitmap
pub mod MinHeap
pub mod Iou
pub mod Dev
