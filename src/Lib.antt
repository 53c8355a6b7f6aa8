-- ===== src/Lib.antt =====
-- Verification of the operating systems exercises: the multi-threaded web server of
-- OS_HW3_234123, the system calls of OS_HW2_234123, the shell of OS_HW1_234123 and the three allocators
-- of OS_HW4_234123.
--
-- The server. A thread of `main` (OS_HW3_234123/server.c) accepts connections and puts them in a
-- queue of pending requests; worker threads (`handle_reqs`) take the oldest, note it in a second
-- queue of served requests, answer it (OS_HW3_234123/request.c) and take it out again. When both
-- queues together hold `max_tasks` requests a policy decides about the next connection.
--
-- - ReqQ: OS_HW3_234123/reqQ.c, both queues. A node is a record in a heap, an explicit function from
--   addresses; a command of the model (ReqQ/Heap) reads and writes it, and an access to an address
--   that holds no node, or to NULL, is the result `fault`. Each operation is the function of the same
--   name (`insertReq` is `insert_req`), and returns the new value of the queue structure in place of
--   writing it. `malloc` is an argument: the address that it gave and what was there before.
--   ReqQ/Links says when a heap holds a queue, ReqQ/Spec has the list operations, and ReqQ/Fifo states
--   them as the contract that the server uses. The proofs are in ReqQ/Insert, ReqQ/RemoveFirst,
--   ReqQ/Remove and ReqQ/Search.
-- - Server: OS_HW3_234123/server.c, with the queues by their contract. A state has both queues, the
--   place of every thread, and the connections accepted and closed. A step is one critical section,
--   from taking the mutex to giving it back or to a wait, or the `close` between two of them; the
--   steps of all threads interleave freely. A thread that waits may test its condition at any time,
--   which covers every signal and spurious wake-ups; lost signals are not modelled. `rand` is an
--   arbitrary function of the round. Server/Counts, Server/Sizes, Server/Overload and
--   Server/Invariant prove the invariant of one step, Server/Runs that of all runs, Server/Effects
--   what each policy does, Server/Drain that a worker can serve what is pending.
-- - Request: OS_HW3_234123/request.c. Texts are lists of bytes, none of them 0. The lines that
--   `Rio_readlineb` delivers, and what `stat` says of a path, are arguments; a path is stat'ed as the
--   code computed it. The loop of `requestReadhdrs` has fuel: as much as there are lines is enough
--   for it to end, and where it does not end no fuel is enough. The reply is a value with its kind and
--   the counters that it shows. Request/Writes has the texts and the calls that make it, with the times
--   that it shows; what the files hold and what a CGI program writes are arguments. A file's size
--   becomes an `int`; where `mmap` of that size fails, as for an empty file, the server exits. The
--   failures of other system calls, at which the wrappers exit too, are not modelled. A line of fewer
--   than three words, a file name and an error's text that do not fit into their buffers are the result
--   `undefined`. A `sprintf` that reads the buffer it writes is taken to append to it.
--   Request/Decimal has the numbers in these texts, Request/Uri the names of files, Request/Cases the
--   ways in which a request ends, Request/Handle the loop and the counters, Request/Client and
--   Request/Delivery what a client reads, and Request/Room the buffer of an error.
-- - Rio: the buffered reading of OS_HW3_234123/segel.c, and `rio_writen`. What the calls of `read` and
--   `write` return, one after the other, is a list; where it ends the next call blocks. Rio/Buffer has
--   the buffer, Rio/Lines the lines, Rio/Counted a number of bytes and Rio/Writes the writing. The loop
--   of `rio_readnb` has as much fuel as bytes are asked for. Rio/Unbuffered has `rio_readn`, which is
--   not called, beside it.
-- - Weights: OS_HW2_234123/kernel/hw2.c, the five system calls, with the member `weight` that
--   OS_HW2_234123/include/linux/sched.h adds. The tasks are a function from addresses. The walk up to
--   init has fuel; one more than the number of ancestors is enough.
-- - Plain: OS_HW4_234123/malloc_1.cpp, `sbrk` behind two checks; Plain/Beside compares it with FirstFit.
-- - FirstFit: OS_HW4_234123/malloc_2.cpp. The linked list of metadata is a list of blocks with their
--   addresses; its links are the order. `sbrk` is an argument, the address or -1. `memcpy` reads all
--   bytes before it writes; a pointer that is no block's is an undefined result. The code that three
--   functions repeat is one definition, `allocate`. Blocks are added and reused, never split.
--   FirstFit/Blocks has what the searches change, FirstFit/Counts the invariant and
--   FirstFit/Pointers which pointers are returned.
-- - Smash: the shell of OS_HW1_234123 (Commands.cpp, Commands.h, signals.cpp, smash.cpp). Smash/Types has
--   the data, what the system calls return while a line is executed (`Os`, an argument; the calls of
--   `fork`, and the passes of `waitpid` over the jobs, are numbered), and the events that can be seen
--   from outside: lines that are printed, signals, processes. Smash/Line is the splitting of a line and
--   CreateCommand, Smash/Jobs the JobsList, Smash/Commands the `execute` of each class, Smash/Shell
--   executeCommand, RedirectionCommand, ctrlCHandler and the loop of main over the lines that are read.
--   An outcome `undefined` is the use of memory that was not written, or outside an array, behind the
--   events in front of it; each `quit` ends so, in the destructor that it calls. A redirection
--   executes its command as a line of its own, which takes fuel: 2 is enough. The loop of chmod has fuel
--   32, enough for every `int` (Smash/Commands/Modes). A child behind `fork` is an event; what it does,
--   a failed exec, or the commands inside a pipe, is not modelled, and neither are leaks, a line of 20
--   words or more, which writes behind the array of arguments, or a signal that arrives during a line.
--   Smash/Line/Trim, Smash/Line/Dispatch and Smash/Line/Classes are about the line, Smash/Jobs/Order and
--   Smash/Jobs/Upkeep about the list of jobs, Smash/Shell/Sound, Smash/Shell/Session and
--   Smash/Shell/Fuel about whole sessions, Smash/Shell/Effects and Smash/Shell/Signals about commands.
-- - Buddy: OS_HW4_234123/malloc_3.cpp. The memory is a function from addresses to metadata, and a list
--   of blocks has its links in it; Buddy/Lists has MDList, Buddy the splitting, the counters and
--   smalloc, Buddy/Release scalloc, sfree and srealloc. The loops have fuel, which more than the number
--   of the nodes of a list is enough for; a result `none` is a use of memory that is undefined, or a
--   loop that does not end. What `sbrk` and `mmap` return is an argument, without an address where they
--   fail. The bytes of the data are apart from the metadata, and NULL is an address like any other for a
--   store. Buddy/Order, Buddy/Kept, Buddy/Prevs, Buddy/Insert and Buddy/Delete are about the links of a list;
--   Buddy/Heap, Buddy/HeapLists and Buddy/HeapDelete about the blocks of all lists and where they
--   stand, Buddy/Split and Buddy/SplitLoop about the splitting, Buddy/Search, Buddy/Take and
--   Buddy/Exact about the choice of a block, Buddy/Start, Buddy/Smalloc and Buddy/Calls about the first call, the
--   later ones and programs of many calls, Buddy/Whole, Buddy/Merge, Buddy/Sizes, Buddy/Free, Buddy/Combine and Buddy/Sfree about the merges
--   of sfree, and Buddy/Neighbours about the address that is found by exclusive or.
--
-- Numbers. An `int` or `long` that can be negative is a ℤ and does not wrap around; in C its overflow
-- is undefined. Sizes, indices in lists and the kernel's pids are ℕ, the shell's pids ℤ. The product in `scalloc` wraps
-- around at 2^64; the counters of malloc_2.cpp, which the memory bounds, do not, and those of
-- malloc_3.cpp go through an `int` where the code's do.
--
-- Prelude has the shared Boolean tests, lists measured by native numbers, and integers; Text has the
-- functions of the C library on strings that Request and Smash use.
--
-- Not modelled: the wrappers of system calls in OS_HW3_234123/segel.c, OS_HW3_234123/client.c and
-- OS_HW3_234123/output.c (input and output), and the kernel's own files and tests of OS_HW2_234123.
pub mod Prelude
pub mod Text
pub mod ReqQ
pub mod Weights
pub mod Server
pub mod Request
pub mod Rio
pub mod Plain
pub mod FirstFit
pub mod Smash
pub mod Buddy
