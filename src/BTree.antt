-- ===== src/BTree.antt =====
-- searchengine/internal/kernal/core/datastructures/bplustree/: the B+ tree from keys to posting
-- lists. `Bound` is the binary search in a node.
pub mod Bound
pub mod Splits
pub mod Heap
pub mod Find
pub mod Shape
pub mod Descent
pub mod Lookup
pub mod Records
pub mod Range
pub mod Insert
pub mod Remove
pub mod Reparent
pub mod Context
pub mod NewRoot
pub mod Around
pub mod Positions
pub mod Runs
pub mod Split
pub mod Extend
pub mod Step
pub mod Down
pub mod Slot
pub mod LeafRuns
pub mod LeafInsert
pub mod LeafSplit
pub mod Whole
pub mod Inserts
pub mod Stored
pub mod Validate
pub mod Window
pub mod Checked
pub mod Sound
pub mod Accept
pub mod Linked
mod Tests
