-- ===== src/Storage/Reopen.antt =====
-- The header outlives the object: what `FlushHeader` writes, `LoadOrInitHeader` reads.
use becoming_an_elite_engine.Base.{
  ℕ, ◌*◌, ◌^◌, ◌<◌, ◌≤◌, ◌≡◌, ap, ◌∙◌, sym, subst, true, false, Option, some, length, arith,
}
use becoming_an_elite_engine.Storage.Codec.{
  Page, FileHeader, IsWords, page_size, header_page_id, sedb_magic, sedb_version, encode_header,
  decode-encode, length-encode_header,
}
use becoming_an_elite_engine.Storage.File.{Stdio, IsReliable}
use becoming_an_elite_engine.Storage.Disk.{
  Disk, done, num_pages, flush_header, set_root_page_id, load_or_init_header,
}
use becoming_an_elite_engine.Storage.ReadWrite.{
  after_read, after_write, after_write-page_here, read_page_lem, write_page_lem,
}

-- a header that this version can have written to a file of `pages` pages
pub record IsHeader (h : FileHeader) (pages : ℕ) : Type 0 where
  pub words : IsWords h
  pub magic : h.magic ≡ sedb_magic
  pub version : h.version ≤ sedb_version
  pub page_bytes : h.page_bytes ≡ page_size
  pub page_count : h.page_count ≤ pages

module _ {F : Type 0} (c : Stdio F) {page : F → ℕ → Option Page} {count : F → ℕ}
    (ok : IsReliable c page count) where
  abbrev after_count : Disk F → Disk F
  after_count s = record s { file = (c.fseek_end s.file).1 }

  num_pages_lem : (s : Disk F) → num_pages c s ≡ (done (count s.file), after_count s)
  unfolding num_pages
  num_pages_lem s = ground (arith, ok.ends s.file, ok.tells s.file)

  abbrev with_root : Disk F → ℕ → Disk F
  with_root s id = record s { header = record s.header { root_page_id = id }; header_dirty = true }

  abbrev after_root : Disk F → ℕ → Disk F
  after_root s id =
      record (after_write c (with_root s id) header_page_id
        (encode_header (with_root s id).header)) { header_dirty = false }

  set_root_page_id_lem :
      (s : Disk F) (id : ℕ) → set_root_page_id c id s ≡ (done tt, after_root s id)
  unfolding set_root_page_id flush_header
  set_root_page_id_lem s id = ground (
    arith,
    write_page_lem c ok (with_root s id) header_page_id (encode_header (with_root s id).header)
        (omega arith) (length-encode_header (with_root s id).header),
  )

  abbrev loaded : Disk F → FileHeader → Disk F
  loaded s h = after_count (record (after_read c (after_count s) header_page_id) { header = h })

  load_or_init_header_lem :
      (s : Disk F) (h : FileHeader) (stale : Page)
      → page s.file header_page_id ≡ some (encode_header h)
      → IsHeader h (count s.file)
      → length stale ≡ page_size
      → load_or_init_header c stale s ≡ (done tt, loaded s h)
  unfolding load_or_init_header
  load_or_init_header_lem s h stale here good size =
      let counted : count (after_read c (after_count s) header_page_id).file ≡ count s.file =
        ok.clear_counts _ ∙ ok.read_counts _ _ ∙ ok.seek_counts _ _ ∙ ok.end_counts _ in
      ground (
        arith,
        num_pages_lem s,
        ok.present s.file header_page_id (encode_header h) here,
        read_page_lem c ok (after_count s) header_page_id (encode_header h) stale (omega arith) size
            (ap (λ f. f header_page_id) (ok.end_keeps s.file) ∙ here),
        decode-encode h good.words,
        good.magic,
        good.version,
        good.page_bytes,
        good.page_count,
        num_pages_lem (record (after_read c (after_count s) header_page_id) { header = h }),
        counted,
      )

  -- On a device without faults, if the header is one that this version writes, with no more pages
  -- than the file has, and the new root is of 32 bits: `SetRootPageId` succeeds, and an object that
  -- is opened on its file afterwards loads the header with the new root without writing, whatever
  -- its local page of 4096 bytes held.
  pub load-set_root_page_id :
      (s : Disk F) (id : ℕ) (stale : Page) (reopened : Disk F)
      → IsHeader s.header (count s.file)
      → id < 2 ^ 32
      → length stale ≡ page_size
      → reopened.file ≡ (set_root_page_id c id s).1.file
      → ((set_root_page_id c id s).0 ≡ done tt)
        × ((load_or_init_header c stale reopened).0 ≡ done tt)
        × ((load_or_init_header c stale reopened).1.header ≡ record s.header { root_page_id = id })
        × ((load_or_init_header c stale reopened).1.writes ≡ reopened.writes)
  load-set_root_page_id s id stale reopened good small size same =
      let flushed = set_root_page_id_lem s id in
      let h = record s.header { root_page_id = id } in
      let file : reopened.file ≡ (after_root s id).file = same ∙ ap (λ r. r.1.file) flushed in
      let here : page reopened.file header_page_id ≡ some (encode_header h) =
        ap (λ f. page f header_page_id) file
        ∙ after_write-page_here c ok (with_root s id) header_page_id (encode_header h)
            (length-encode_header h) in
      let grown : count s.file ≤ count reopened.file =
        subst (λ f. count s.file ≤ count f) (sym file)
          (omega (
            arith,
            ok.seek_counts s.file (header_page_id * page_size),
            ok.write_counts (c.fseek_set s.file (header_page_id * page_size)).1 (encode_header h),
            ok.flush_counts
                (c.fwrite (c.fseek_set s.file (header_page_id * page_size)).1 (encode_header h)).1,
          )) in
      let still : IsHeader h (count reopened.file) = record {
        words = record {
          magic = good.words.magic;
          version = good.words.version;
          page_bytes = good.words.page_bytes;
          page_count = good.words.page_count;
          free_list_head = good.words.free_list_head;
          num_free_pages = good.words.num_free_pages;
          reserved = good.words.reserved;
          root_page_id = small;
        };
        magic = good.magic;
        version = good.version;
        page_bytes = good.page_bytes;
        page_count = omega (arith, good.page_count);
      } in
      let load = load_or_init_header_lem reopened h stale here still size in
      (
        ap (λ r. r.0) flushed,
        ap (λ r. r.0) load,
        ap (λ r. r.1.header) load,
        ap (λ r. r.1.writes) load,
      )
