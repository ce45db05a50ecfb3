-- ===== src/Storage/File.antt =====
-- The C library under diskmanager.cpp, as far as it is used: a stream `F` with a position, opened
-- for reading and writing in binary, and what is relied on.
use becoming_an_elite_engine.Base.{
  ℕ, ◌*◌, ◌<◌, ◌≤◌, ◌≡◌, ◌≢◌, Bool, true, false, Option, some, List, length,
}
use becoming_an_elite_engine.Storage.Codec.{Page, page_size}

pub record Stdio (F : Type 0) : Type 0 where
  pub fseek_set : F → ℕ → Bool × F
  pub fseek_end : F → Bool × F
  pub ftell : F → Option ℕ
  pub fread : F → ℕ → List ℕ × F
  pub fwrite : F → List ℕ → ℕ × F
  pub ferror : F → Bool
  pub clearerr : F → F
  pub fflush : F → F
  pub fsync : F → Bool × F

-- A file of whole pages on a device without faults: `page f i` is what the file has at page `i`,
-- `count f` the number of its pages. What is written at a page is read there, and the other pages
-- stay; reading, seeking, flushing and the flags leave the file as it is, and no call makes it shorter.
pub record IsReliable {F : Type 0} (c : Stdio F) (page : F → ℕ → Option Page) (count : F → ℕ)
    : Type 0 where
  pub seeks : (f : F) (offset : ℕ) → (c.fseek_set f offset).0 ≡ true
  pub seek_keeps : (f : F) (offset : ℕ) → page (c.fseek_set f offset).1 ≡ page f
  pub seek_counts : (f : F) (offset : ℕ) → count (c.fseek_set f offset).1 ≡ count f
  pub ends : (f : F) → (c.fseek_end f).0 ≡ true
  pub end_keeps : (f : F) → page (c.fseek_end f).1 ≡ page f
  pub end_counts : (f : F) → count (c.fseek_end f).1 ≡ count f
  pub tells : (f : F) → c.ftell (c.fseek_end f).1 ≡ some (count f * page_size)
  pub reads :
      (f : F) (i : ℕ) (p : Page)
      → page f i ≡ some p
      → (c.fread (c.fseek_set f (i * page_size)).1 page_size).0 ≡ p
  pub read_keeps : (f : F) (n : ℕ) → page (c.fread f n).1 ≡ page f
  pub read_counts : (f : F) (n : ℕ) → count (c.fread f n).1 ≡ count f
  pub read_succeeds :
      (f : F) (n : ℕ) → length (c.fread f n).0 ≡ n → c.ferror (c.fread f n).1 ≡ false
  pub whole : (f : F) (i : ℕ) (p : Page) → page f i ≡ some p → length p ≡ page_size
  pub writes : (f : F) (p : List ℕ) → (c.fwrite f p).0 ≡ length p
  pub write_here :
      (f : F) (i : ℕ) (p : Page)
      → length p ≡ page_size
      → page (c.fwrite (c.fseek_set f (i * page_size)).1 p).1 i ≡ some p
  pub write_elsewhere :
      (f : F) (i j : ℕ) (p q : Page)
      → length p ≡ page_size
      → j ≢ i
      → page f j ≡ some q
      → page (c.fwrite (c.fseek_set f (i * page_size)).1 p).1 j ≡ some q
  pub write_counts : (f : F) (p : List ℕ) → count f ≤ count (c.fwrite f p).1
  pub present : (f : F) (i : ℕ) (p : Page) → page f i ≡ some p → i < count f
  pub clear_keeps : (f : F) → page (c.clearerr f) ≡ page f
  pub clear_counts : (f : F) → count (c.clearerr f) ≡ count f
  pub flush_keeps : (f : F) → page (c.fflush f) ≡ page f
  pub flush_counts : (f : F) → count (c.fflush f) ≡ count f
  pub syncs : (f : F) → (c.fsync f).0 ≡ true
