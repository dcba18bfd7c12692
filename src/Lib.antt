-- ===== src/Lib.antt =====
-- A verification library for the solutions to the exercises in system programming.
--
-- The repository holds one program per directory, which share no code: a sort on coroutines (1), a shell
-- (2), a file system in memory (3), a thread pool (4) and a chat (5). Modelled are the file system,
-- 3/userfs.c with 3/userfs.h; of the shell the parser, the evaluator, `main`, 2/command.c,
-- 2/pipe_list.c and the growing list and string builder of 2/utils.c; the thread pool,
-- 4/thread_pool.c; and of the sort the loop of coroutines, 1/mine/libcoro.c, and `coroutine`, `merge_sort`
-- and what `main` does with the results in 1/mine/main.c.
--
-- The state of the file system are the globals of userfs.c: the list of files, the array of
-- descriptors with its count and capacity, and the error code. A file is a list of blocks of 512
-- bytes; a descriptor points to a block and an offset in it. `ufs_open` and `ufs_delete` find files by
-- name, the other calls go through the array. A deleted file lives on until its last descriptor is closed.
--   Prelude            names of the libraries passed on; lists, overwriting, integers, distinct addresses
--   Userfs.Types       the structs, enums and globals, as the record `Ufs`
--   Userfs.Chain       `add_block`, and the bytes that blocks hold
--   Userfs.Transfer    `init_filedesc_current_block`, the loops of `ufs_write` and `ufs_read`
--   Userfs.Table       the checks of a descriptor, `create_filedesc`
--   Userfs.Files       the search by name, `add_file`, `free_file`
--   Userfs.Resize      the parts of `ufs_resize`
--   Userfs.Api         the functions of userfs.h
--   Userfs.Ahead, Read    what lies ahead of a descriptor, and the loop of `ufs_read`
--   Userfs.Dense, Position, Write    dense files, and the loop of `ufs_write`
--   Userfs.Truncate    what a cut does to a file and to the descriptors
--   Userfs.Valid       the state in order, and each change of it
--   Userfs.Safety      every call on a state in order, whole programs, `ufs_destroy`
--   Userfs.Content     `ufs_write` and `ufs_read` as operations on a byte string
--   Userfs.Defects     calls at the bounds of the table, of a block and of the file
--   Userfs.Tests       sample states and the theorems at them
--   Shell.Command      `command_exec` of 2/command.c, with `pipe_list_exec` as a parameter
--   Shell.AndOr        && and || as operators that bind to the left
--   Shell.Utils        the growing list of 2/utils.c and 2/utils.h
--   Shell.Lists        the growing list against the list of its items
--   Shell.Builder      the string builder of 2/utils.c
--   Shell.Run, Stdin   the outcomes of the shell's functions; the standard input
--   Shell.Token        the types and macros of 2/parser.h
--   Shell.Tokenizer    `tokenize_command` of 2/parser.c
--   Shell.Evaluator    2/evaluator.c, with `pipe_list_exec` and `fork` as parameters
--   Shell.Main         `main` of 2/solution.c
--   Shell.Grammar      words and lines as relations between a text and what it means
--   Shell.Words, Rounds, Lines    the reader against the grammar
--   Shell.Items, Slices, Pipes, Operators, Entries, Cut, Meaning
--                        the evaluator against programs, pipelines and lines
--   Shell.Descriptors  the descriptors of a process, `dup2` and `close`
--   Shell.Pipeline     2/pipe_list.c, with the operating system as the parameter `Kernel`
--   Shell.Connected, Wiring    which ends of the pipes the children and the shell hold
--   Shell.Status       what `pipe_list_exec` returns
--   Shell.Session      the text of a session and what it does
--   Shell.Defects      tabs, quotes side by side, a comment at the end of the input
--   Shell.Tests        sample lines, lists and strings, and the theorems at them
--   Pool.Timeout       `init_timespec` of 4/thread_pool.c
--   Pool.Task          the tasks in memory and the functions on a task
--   Pool.Queue, Fifo   the linked queue, and the list that it stands for
--   Pool.Worker        `worker_function`, step by step
--   Pool.Api           the functions on a pool
--   Pool.Steps         the runs of a pool, in any order of steps
--   Pool.Moves, Counted, Limits, Counts    the pool's counts at each step, and over runs
--   Pool.Keeps         the calls on a task, and the tasks that are in the pool
--   Pool.Owners        the tasks of the queue, of a push and of the threads
--   Pool.Threads, Pushes, Safety    the owners at each step, and over runs by rule-abiding programs
--   Pool.Results       a task from its start to its result
--   Pool.Defects       a push that comes too early, a join that wakes up early, a delete that comes too
--                      early
--   Pool.Tests         a sample pool, and the theorems at it
--   Sort.Merge         `merge_sort` of 1/mine/main.c
--   Sort.Ordered       sorted lists, and how often a number stands in one
--   Sort.Results       the merge of the files' numbers in `main` of 1/mine/main.c
--   Sort.Picks, Merged    that merge against order and counts
--   Sort.Files         every file sorted, and the merge
--   Sort.Plan          `merge_sort` as writes to an array, in turn
--   Sort.Coroutines    `coroutine` of 1/mine/main.c, step by step, in any order
--   Sort.Shared, Schedules    how the coroutines share the files
--   Sort.Loop          1/mine/libcoro.c: the ring of coroutines, and the loop over it
--   Sort.Ring          the list of nodes that a ring stands for
--   Sort.Turns, Returned    `coro_yield` and the end of a coroutine on a ring
--   Sort.RoundRobin, Running, Created, Shares    the whole loop as a queue, its making, the turns of each coroutine
--   Sort.Tests         sample lists and coroutines, and the theorems at them
-- A definition has the source's name, or one for the part of a function that it stands for.
--
-- The heap is a list of file objects, an address is a position in it, and a freed object is `none`: a
-- call that follows a freed or null pointer, or reads outside the array, has the outcome `fault`. A
-- pointer to a block is its position in the file's list. Bytes are natural numbers, and names are
-- strings. A file is dense if every block but the last is full, as it is unless `ufs_resize` made it
-- longer; its content is one byte string, and a descriptor has a position in that.
--
-- The two loops run on fuel of two rounds for each byte and two more. A round moves at least one byte,
-- or leaves a full or missing block, after which the next one moves a byte or
-- ends the loop. A call that runs out of fuel has an outcome of its own. `merge_sort` runs on
-- fuel of the length of its part, and its halves are shorter. All else is structural recursion.
--
-- The input of the shell is a list of bytes with the flag that `feof` reads; a byte that is no character
-- stands for EOF. The loops of the reader that do not test for EOF run on fuel, as does the loop
-- of `main`: each round reads a character, so that fuel above the length of the text is enough for the
-- texts of the grammar, and no fuel is enough where the source loops for ever. For the evaluator `pipe_list_exec`
-- is any map from a world and a pipeline to a world and an exit context; `fork` starts a child in a world
-- of its own. In Shell.Pipeline a child is its table of descriptors and what it goes on to do, and a run of
-- the children is left to the kernel, whose `pipe` gives out descriptors that are not open.
--
-- The memory of the thread pool maps an address to a task, or to nothing. A thread of the pool is the
-- place in `worker_function` where it is; an atomic operation, a critical section and the call of a
-- task's function are one step each, and the steps of all threads come in any order. The section behind
-- the call is more than one, as functions that do not take the mutex may come in between: the store of the
-- status, the broadcast, the unlock, and the delete of a detached task. One thread of the program pushes
-- tasks, in three steps; joins and detaches are their accesses, which come at any time. A wait may end
-- without a broadcast, as POSIX says. `double` is any type with `modf` and the casts, which hold no value
-- where C leaves them undefined.
--
-- The coroutines of 1/mine/main.c write to the array of their file by parts, and may yield behind each
-- write, as the source does behind each merge. What `fscanf` finds in a file is a list of numbers.
--
-- A node of the loop of coroutines has an address, and following a freed one is the outcome `none`. A
-- coroutine is the number of times that it still yields; the loop runs on fuel, one for each turn, and is
-- given as much as the coroutines have turns. What the coroutines of 1/mine/main.c do between their
-- yields is in Sort.Coroutines, where their steps come in any order, that of the loop among them.
--
-- Not modelled: failure of `calloc` and `realloc`, for which the source exits or has no check; overflow
-- of the `int` counters, which takes more than 2 ^ 31 opens; flags and sizes below zero. A file
-- has at most 204800 blocks, so that its counters do not overflow. The functions of the shell that
-- release memory, and the failures of `pipe`, `fork` and `waitpid`, at which it exits, are not modelled;
-- of the thread pool, the mutexes between two accesses of a critical section, and the end of
-- `thread_pool_delete`, whose accesses up to `pthread_join` are one step. Nor are the stacks that
-- 1/mine/libcoro.c switches, the clock of 1, its variant with asynchronous input, 1/mine/main_aio.c, and
-- the chat in 5. Tests, checkers, examples, the course's own coroutine program and its heap checker are
-- not part of a solution.
pub mod Prelude
pub mod Userfs
pub mod Pool
pub mod Shell
pub mod Sort
