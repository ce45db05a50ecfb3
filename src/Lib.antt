-- ===== src/Lib.antt =====
-- Verification of the data structures, the page store and the text pipeline of the search engine
-- (searchengine/).
--
-- The search engine reads documents, and passes their words through ring buffers from its lexer
-- to its parser and its store; an index of the words is a search tree, and the B+ tree is the
-- index from keys to posting lists that is to stand on pages of a file.
--
-- - Base: what the others share. Lists over the native numbers, with the reads and writes that
--   C++ vectors have (Base/Lists), the class of ordered types (Base/Keys), sorted lists as sets
--   (Base/Sorted).
-- - Ring: searchengine/internal/kernal/core/datastructures/ringbuffer.hpp. `push`, `pop`,
--   `push_blocking`, `pop_blocking`, `full` and `empty` keep their names. The state is the two
--   64-bit indices and the array. Ring/Queue is the specification, Ring/Refine relates
--   the ring to it, Ring/Wrap is what happens when an index wraps.
-- - Bst: searchengine/internal/kernal/core/datastructures/bstree.hpp. `insert`, `search`,
--   `remove` and `print` are `recurse_insertion`, `recurse_search`, `recurse_remove` and
--   `traverse_in_order`; a slot of type `TreeNode*&` is the subtree that stands in it.
-- - BTree: searchengine/internal/kernal/core/datastructures/bplustree/. Nodes live at addresses
--   of a heap, with their parent and chain pointers (BTree/Heap). A command has the names of its
--   function, in the spelling of this library: BTree/Bound and BTree/Find are the search side,
--   BTree/Insert and BTree/Remove the writing side. BTree/Shape says which tree an object stands
--   for, and BTree/Lookup and BTree/Range what the reading operations return on it. BTree/Validate
--   is `Validate`; BTree/Window is what it asks of a tree (with BTree/Stored, the tree in the heap
--   apart from the links between leaves), BTree/Checked and BTree/Sound are for a result true,
--   BTree/Accept and BTree/Linked for a tree that is as asked. Insertion goes by the outside of
--   a subtree: BTree/Context says what it takes to put one or two subtrees in its place,
--   BTree/NewRoot and BTree/Step give it for the root and for a child, with BTree/Reparent,
--   BTree/Around, BTree/Positions, BTree/Runs, BTree/Split and BTree/Extend for the single steps;
--   BTree/Down goes to a leaf, BTree/Slot, BTree/LeafRuns, BTree/LeafInsert and BTree/LeafSplit
--   change it, and BTree/Whole and BTree/Inserts are the tree afterwards.
-- - Storage: searchengine/internal/kernal/core/storage/. Storage/Codec is page.hpp and
--   fileheader.hpp, Storage/Disk the members of `DiskManager`, with their names, on the C
--   library's stream, which Storage/File states as an interface and its documented behaviour on
--   a device without faults. Storage/ReadWrite, Storage/FreeList and Storage/Reopen are the
--   proofs.
-- - Lexer: searchengine/internal/lexer/lexer.cpp, with the stop words of
--   searchengine/internal/kernal/core/utils/. Lexer/Text has the calls of the C++ library and
--   the look-up of stop words; Lexer/Words has `split_line` (`splitLine`) and `tokens`, what
--   `Worker` pushes for a line; Lexer/Split is what they compute. Lexer/Shutdown is the step
--   relation of the two workers and of `OnStop` on the state they share, Lexer/Sound its
--   invariant, and Lexer/Stream what these threads push into the parser queue.
-- - Parser: searchengine/internal/parser/parser.cpp. `run` is `Parser::Run` on the rounds of its
--   loop, each with the value of `running_` and the token that is popped; it fills the tree of
--   Bst. Parser/Stream says when the promise is fulfilled and what the tree then has.
-- - Pipeline: the parser on what the threads of the lexer have pushed, in the order of the queue.
--   Pipeline/Threads is the step relation of all threads at the parser queue: those of the lexer,
--   `Parser::Run` and `Parser::OnStop`, which pushes an empty string of its own. Pipeline/Joint is
--   its invariant, Pipeline/Given is about what the queue is given and what `Run` makes of it,
--   Pipeline/Stop about a number in the promise when `OnStop` may come at any time, and
--   Pipeline/Drain about the parser behind a lexer that is done.
-- - Index: searchengine/internal/store/store.cpp and searchengine/internal/engine/engine.cpp. A
--   `Store` has the members of its class; `search` is `Engine::Search` with the log as its
--   result, and `serve` the loop of `Engine::Run`. Index/Queries is what a query finds.
-- - Kernal: searchengine/internal/kernal/kernal.cpp and
--   searchengine/internal/kernal/core/headerfiles/subsystem.hpp. `register`, `init_all`, `start_all`,
--   `stop_all` and `await_indexing` are the members of `Kernal`; `init_one`, `start_one` and `stop_one`
--   are `Init`, `Start` and `Stop` of a subsystem. What its hooks do is a parameter. Kernal/Await,
--   Kernal/Stop and Kernal/Boot are the proofs.
--
-- Bounds and fuel. A C++ `int` is 32 bits wide and a `size_t` 64, with the wrap written out. A
-- loop along pointers has a fuel: the theorems take any fuel above the height of the tree and,
-- for a range, above the number of its leaves, and show that the command then has a result. A
-- command without a result stands for undefined behaviour or for a fuel that is used up.
--
-- Not modelled: memory orders and condition variables of the ring buffer (a call runs without
-- another in between), the freeing of the search tree, and the printing functions and the moves
-- of the B+ tree. Removal from the B+ tree, and insertion into an empty one, are defined and run
-- on examples. The reading of files by the lexer, its start when a thread cannot be created, the
-- destructor of `Kernal` and objectstorage/ are not modelled, and neither are the constructor
-- and destructor of `DiskManager`, which open and close the file.
pub mod Base
pub mod Ring
pub mod Bst
pub mod BTree
pub mod Storage
pub mod Lexer
pub mod Parser
pub mod Pipeline
pub mod Index
pub mod Kernal
