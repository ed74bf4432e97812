-- ===== src/Lib.antt =====
-- pcat concatenates files in parallel: the output file is resized to the total length of the input
-- files, an algorithm cuts it into chunks, and the worker threads of a pool copy each chunk from the
-- input files through memory maps. The development models the code that decides which bytes go where,
-- and shows when the output is the concatenation of the input files.
--
-- The parts of the program, and the files that model them (paths from the root of the repository):
--   MappingOffset  src/mappingOffset.hxx and the sizes of src/chunking.hxx: a position in a file,
--                  split at the page that a mapping can begin at.
--   InputFiles     the vector `inputFiles` of src/chunking.hxx, as the list of the files' lengths,
--                  with an iterator as an index into it.
--   ChunkState     chunkState_t of both algorithms: the walk through the input blocks that fill one
--                  chunk of the output, `operator ++`, `end()` and `nextInputBlock`. What the two
--                  classes differ in, the length of the next input block, is a parameter.
--   BlockLinear    src/algorithm/blockLinear: chunking_t and fileChunker_t, and the `for` loop of
--                  chunkedCopy over them, as the list of the chunks that it queues.
--   ChunkSpans     src/algorithm/chunkSpans: the same for spans of several blocks, with the length of
--                  the spans that chunkedCopy chooses in ChunkSpans/Plan.
--   Mmap           mmap_t of src/mmap.hxx. What `mmap`, `madvise` and `msync` answer is a parameter.
--                  An access through a null address, or one that the protection forbids, is a
--                  fault, and a write through a private mapping does not reach the file.
--   Copy           copyChunk of src/copyChunk.hxx, the chunks copied one after the other, in any order,
--                  and, in Copy/Threads, copied by the threads of a pool.
--   ThreadedQueue  threadedQueue_t of src/threadedQueue.hxx, each operation whole under its mutex.
--   ThreadPool     threadPool_t of src/threadPool.hxx. Its worker threads and the thread that queues the
--                  jobs take their steps in any interleaving: ThreadPool has what a step of one thread
--                  does, ThreadPool/Relation the steps of the pool, with the wake-ups of the condition
--                  variable, and ThreadPool/Schedule runs it for a given interleaving. The two
--                  chunkedCopy are its clients, in BlockLinear/Threads and ChunkSpans/Threads.
--   Program        `main` of src/pcat.cxx: the options, the files that are gathered, the output that is
--                  resized, the choice of the algorithm, and, in Program/Exit, the copy and the exit
--                  code. What the file system answers is a parameter.
--   Affinity       affinity_t of src/linux/affinity.hxx and src/indexSequence.hxx: which processors the
--                  threads are pinned to, with src/windows/affinity.hxx in Affinity/Windows. What the
--                  system answers is a parameter.
--   Args           src/args.hxx and src/args/types.cxx, with the tokenizer of src/args/tokenizer.cxx in
--                  Args/Tokenizer and the parser of src/args.cxx in Args/Parser. `toInt_t` of the
--                  substrate library is a parameter.
--   Utils          src/utils/span.hxx and src/utils/iterator.hxx, as the loop over the options uses them.
--   Bytes          the contents of files as lists of bytes. Samples has what the tests share.
--
-- A fault is a value: Common.Results has a result type with the errors that the code rules out by an
-- assertion or does not look for, an iterator past the end of `inputFiles` among them. `off_t` is ℕ:
-- the program opens no file of a negative length, and a difference that would be negative is a fault.
-- What is computed in `size_t` keeps its wrap-around.
--
-- Loops run on fuel, the parser's with one round for each character and each argument. The walk
-- over an output block of n bytes is given n + 1 rounds, the loop over the chunks of an output of
-- n bytes n + 1 rounds, and copyChunk on a block of n bytes n + 1 rounds: each round but the last
-- uses up a byte at least. Where their conditions hold, the theorems show
-- that no loop runs out.
--
-- A run of a pool has no fuel: it is a sequence of steps of any length, and its length is bounded. A
-- job is one step, and so are a test of a queue and the `pop` behind it, since only the holder of
-- workMutex pops the work and only the thread of chunkedCopy the results. A worker may wake without a
-- notification.
--
-- Not modelled: what the console prints, an output that is one of the inputs, two jobs that write at
-- the same time (they write to different blocks), exceptions of the system's thread library, how the
-- files are locked and closed, mmap_t on Windows, the members of span_t and its iterator that nothing
-- uses, and the file descriptors of the substrate library.
pub mod Common
pub mod MappingOffset
pub mod InputFiles
pub mod ChunkState
pub mod BlockLinear
pub mod ChunkSpans
pub mod Bytes
pub mod Mmap
pub mod Copy
pub mod Samples
pub mod Affinity
pub mod Args
pub mod Program
pub mod ThreadPool
pub mod ThreadedQueue
pub mod Utils
