-- ===== src/Storage.antt =====
-- searchengine/internal/kernal/core/storage/: pages of a database file, and the header on page 0.
-- `Codec` is fileheader.hpp, `File` the C library below it, `Disk` diskmanager.cpp.
pub mod Codec
pub mod File
pub mod Disk
pub mod ReadWrite
pub mod FreeList
pub mod Reopen
mod Tests
