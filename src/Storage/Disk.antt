-- ===== src/Storage/Disk.antt =====
-- diskmanager.cpp: the object `DiskManager` on a stream of the C library. The constructor's opening
-- of the file, the destructor and the path are not modelled.
use becoming_an_elite_engine.Base.{
  ℕ, ◌+◌, ◌-◌, ◌*◌, ◌/◌, ◌%◌, ◌^◌, Bool, true, false, not, ◌||◌, none, some, length, ltb, leb, ◌==◌,
  if◌then◌else◌,
}
use becoming_an_elite_engine.Storage.Codec.{
  Page, FileHeader, page_size, invalid_page_id, header_page_id, sedb_magic, sedb_version, zeros,
  bytes, number, memcpy, encode_header, decode_header,
}
use becoming_an_elite_engine.Storage.File.{Stdio}

-- the exceptions, by what they say
pub data Failure : Type 0 where
  invalid_page : Failure
  seek_failed : Failure
  read_failed : Failure
  write_failed : Failure
  sync_failed : Failure
  tell_failed : Failure
  refused : ℕ → Failure
  not_a_database : Failure
  newer_version : ℕ → Failure
  other_page_size : ℕ → Failure

-- A function returns, throws, or runs off its end without a `return`.
pub data Reply (A : Type 0) : Type 0 where
  done : A → Reply A
  thrown : Failure → Reply A
  undefined : Reply A

pub record Disk (F : Type 0) : Type 0 where
  pub file : F
  pub reads : ℕ
  pub writes : ℕ
  pub header : FileHeader
  pub header_dirty : Bool

abbrev pub M : Type 0 → Type 0 → Type 0
M F A = Disk F → Reply A × Disk F

module _ {F : Type 0} where
  abbrev pub pure : {A : Type 0} → A → M F A
  pure a s = (done a, s)

  infixl 5 ◌>>=◌ ◌>>◌
  abbrev pub ◌>>=◌ : {A B : Type 0} → M F A → (A → M F B) → M F B
  ◌>>=◌ m f s =
      let (r, s') = m s in
      elim r [ done a ↦ f a s' | thrown e ↦ (thrown e, s') | undefined ↦ (undefined, s') ]

  abbrev pub ◌>>◌ : {B : Type 0} → M F (Unit {0}) → M F B → M F B
  m >> k = m >>= λ _. k

  abbrev pub throw : {A : Type 0} → Failure → M F A
  throw e s = (thrown e, s)

  -- a call that reads and changes the stream
  abbrev pub on_file : {A : Type 0} → (F → A × F) → M F A
  on_file call s = let (a, f) = call s.file in (done a, record s { file = f })

  abbrev pub look : M F (Disk F)
  look s = (done s, s)

  -- `++m_Reads` and `++m_Writes`, of 64 bits
  abbrev pub count_read : M F (Unit {0})
  count_read s = (done tt, record s { reads = (s.reads + 1) % 2 ^ 64 })

  abbrev pub count_write : M F (Unit {0})
  count_write s = (done tt, record s { writes = (s.writes + 1) % 2 ^ 64 })

  abbrev pub set_header : FileHeader → M F (Unit {0})
  set_header h s = (done tt, record s { header = h })

  abbrev pub set_dirty : Bool → M F (Unit {0})
  set_dirty b s = (done tt, record s { header_dirty = b })

module _ {F : Type 0} (c : Stdio F) where
  -- A page id has 32 bits, so the product stays in 64.
  abbrev pub offset_of : ℕ → ℕ
  offset_of page_id = page_id * page_size

  -- `out` is what the buffer held before; the result is what it holds after.
  unfoldable pub read_page : ℕ → Page → M F Page
  read_page page_id out = if page_id == invalid_page_id then throw invalid_page else (do
    sought ← on_file (λ f. c.fseek_set f (offset_of page_id))
    if not sought then throw seek_failed else (do
      got ← on_file (λ f. c.fread f page_size)
      count_read
      let filled = memcpy out 0 got
      if not (length got == page_size) then pure filled else (do
        s ← look
        if c.ferror s.file then (do on_file (λ f. (tt, c.clearerr f)); throw read_failed) else (do
          on_file (λ f. (tt, c.clearerr f))
          pure (memcpy filled (length got) (zeros (page_size - length got)))))))

  unfoldable pub write_page : ℕ → Page → M F (Unit {0})
  write_page page_id page = if page_id == invalid_page_id then throw invalid_page else (do
    sought ← on_file (λ f. c.fseek_set f (offset_of page_id))
    if not sought then throw seek_failed else (do
      written ← on_file (λ f. c.fwrite f page)
      count_write
      if not (written == page_size) then throw write_failed else on_file (λ f. (tt, c.fflush f))))

  unfoldable pub flush_header : M F (Unit {0})
  flush_header = do
    s ← look
    if not s.header_dirty
        then pure tt
        else (do write_page header_page_id (encode_header s.header); set_dirty false)

  unfoldable pub sync : M F (Unit {0})
  sync = do
    flush_header
    on_file (λ f. (tt, c.fflush f))
    synced ← on_file c.fsync
    if not synced then throw sync_failed else pure tt

  unfoldable pub num_pages : M F ℕ
  num_pages = do
    sought ← on_file c.fseek_end
    if not sought then throw seek_failed else (do
      s ← look
      elim (c.ftell s.file) [ none ↦ throw tell_failed | some size ↦ pure (size / page_size) ])

  -- `stale` is what the local page holds before it is read.
  unfoldable pub allocate_page : Page → M F ℕ
  allocate_page stale = do
    s ← look
    let id = s.header.free_list_head
    if id == invalid_page_id then (λ s'. (undefined, s')) else (do
      page ← read_page id stale
      t ← look
      set_header (record t.header {
        free_list_head = number page;
        num_free_pages = (t.header.num_free_pages + 2 ^ 32 - 1) % 2 ^ 32;
      })
      set_dirty true
      write_page id (zeros page_size)
      pure id)

  unfoldable pub deallocate_page : ℕ → M F (Unit {0})
  deallocate_page id = do
    s ← look
    if (id == header_page_id) || (id == invalid_page_id) || leb s.header.page_count id
        then throw (refused id)
        else (do
          write_page id (memcpy (zeros page_size) 0 (bytes s.header.free_list_head))
          t ← look
          set_header (record t.header {
            free_list_head = id;
            num_free_pages = (t.header.num_free_pages + 1) % 2 ^ 32;
          })
          set_dirty true)

  unfoldable pub set_root_page_id : ℕ → M F (Unit {0})
  set_root_page_id id = do
    s ← look
    set_header (record s.header { root_page_id = id })
    set_dirty true
    flush_header

  unfoldable pub load_or_init_header : Page → M F (Unit {0})
  load_or_init_header stale = do
    n ← num_pages
    if n == 0
        then (do
          set_header (record {
            magic = sedb_magic;
            version = sedb_version;
            page_bytes = page_size;
            page_count = 1;
            free_list_head = invalid_page_id;
            root_page_id = invalid_page_id;
            num_free_pages = 0;
            reserved = 0;
          })
          set_dirty true
          flush_header
          sync)
        else (do
          page ← read_page header_page_id stale
          let h = decode_header page
          set_header h
          if not (h.magic == sedb_magic)
              then throw not_a_database
              else if ltb sedb_version h.version
              then throw (newer_version h.version)
              else if not (h.page_bytes == page_size)
              then throw (other_page_size h.page_bytes)
              else (do
                actual ← num_pages
                if ltb actual h.page_count
                    then (do set_header (record h { page_count = actual % 2 ^ 32 }); set_dirty true)
                    else pure tt))
