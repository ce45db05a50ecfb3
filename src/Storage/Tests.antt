-- ===== src/Storage/Tests.antt =====
-- A file in memory, and the theorems on the page store at it.
use becoming_an_elite_engine.Base.{
  ℕ, ◌+◌, ◌*◌, ◌/◌, ◌<◌, ◌≡◌, ◌⊎◌, refl, true, false, Option, none, some, List, [], ◌∷◌, length,
  arith, ltb, ◌==◌, if◌then◌else◌,
}
use becoming_an_elite_engine.Storage.Codec.{
  Page, FileHeader, IsWords, page_size, zeros, length-zeros, sedb_magic, sedb_version,
  invalid_page_id, encode_header, decode_header, decode-encode, length-encode_header,
}
use becoming_an_elite_engine.Storage.File.{Stdio, IsReliable}
use becoming_an_elite_engine.Storage.Disk.{
  Disk, done, thrown, undefined, refused, allocate_page, deallocate_page, read_page, write_page,
  set_root_page_id, load_or_init_header,
}
use becoming_an_elite_engine.Storage.ReadWrite.{read-write}
use becoming_an_elite_engine.Storage.FreeList.{
  HasFree, is_refused, allocate_page-HasFree, deallocate_page-HasFree,
}
use becoming_an_elite_engine.Storage.Reopen.{IsHeader, load-set_root_page_id}

record Ram : Type 0 where
  blocks : ℕ → Option Page
  total : ℕ
  at : ℕ

abbrev block : Ram → ℕ → List ℕ
block f i = elim (f.blocks i) [ none ↦ [] | some p ↦ p ]

abbrev ram : Stdio Ram
ram = record {
  fseek_set = λ f offset. (true, record f { at = offset });
  fseek_end = λ f. (true, record f { at = f.total * page_size });
  ftell = λ f. some f.at;
  fread = λ f n. (block f (f.at / page_size), f);
  fwrite = λ f p. (
    length p,
    record f {
      blocks = λ i. if i == f.at / page_size then some p else f.blocks i;
      total = if ltb (f.at / page_size) f.total then f.total else f.at / page_size + 1;
    },
  );
  ferror = λ f. false;
  clearerr = λ f. f;
  fflush = λ f. f;
  fsync = λ f. (true, f);
}

abbrev page : Ram → ℕ → Option Page
page f i = elim (f.blocks i) [
  | none ↦ none
  | some p ↦ if length p == page_size then if ltb i f.total then some p else none else none
]

block_at : (i : ℕ) → i * page_size / page_size ≡ i
block_at i = omega arith

ram-IsReliable : IsReliable ram page (λ f. f.total)
ram-IsReliable = record {
  seeks = λ f offset. refl;
  seek_keeps = λ f offset. refl;
  seek_counts = λ f offset. refl;
  ends = λ f. refl;
  end_keeps = λ f. refl;
  end_counts = λ f. refl;
  tells = λ f. refl;
  reads = λ f i p h. ground (arith, block_at i);
  read_keeps = λ f n. refl;
  read_counts = λ f n. refl;
  read_succeeds = λ f n h. refl;
  whole = λ f i p h. ground arith;
  writes = λ f p. refl;
  write_here = λ f i p h. ground (arith, block_at i);
  write_elsewhere = λ f i j p q h other e. ground (arith, block_at i);
  write_counts = λ f p. ground arith;
  present = λ f i p h. ground arith;
  clear_keeps = λ f. refl;
  clear_counts = λ f. refl;
  flush_keeps = λ f. refl;
  flush_counts = λ f. refl;
  syncs = λ f. refl;
}

abbrev header : FileHeader
header = record {
  magic = sedb_magic;
  version = sedb_version;
  page_bytes = page_size;
  page_count = 4;
  free_list_head = invalid_page_id;
  root_page_id = 2;
  num_free_pages = 0;
  reserved = 0;
}

header-IsWords : IsWords header
header-IsWords = record {
  magic = omega arith;
  version = omega arith;
  page_bytes = omega arith;
  page_count = omega arith;
  free_list_head = omega arith;
  root_page_id = omega arith;
  num_free_pages = omega arith;
  reserved = omega arith;
}

decode-encode_example :
    (decode_header (encode_header header) ≡ header) × (length (encode_header header) ≡ page_size)
decode-encode_example = decode-encode header header-IsWords

-- four pages of zeros, and none of them free
abbrev disk : Disk Ram
disk = record {
  file = record { blocks = λ i. some (zeros page_size); total = 4; at = 0 };
  reads = 0;
  writes = 0;
  header = header;
  header_dirty = false;
}

disk_page : (i : ℕ) → i < 4 → page disk.file i ≡ some (zeros page_size)
disk_page i h = ground (arith, length-zeros page_size)

disk-HasFree : HasFree page disk []
disk-HasFree = record { linked = refl; distinct = tt; counted = refl; bounded = omega arith }

read-write_example :
    (s' : Disk Ram) × (write_page ram 1 (encode_header header) disk ≡ (done tt, s'))
    × ((read_page ram 1 (zeros page_size) s').0 ≡ done (encode_header header))
    × ((read_page ram 3 (zeros page_size) s').0 ≡ done (zeros page_size))
read-write_example =
    read-write ram ram-IsReliable disk 1 3 (encode_header header) (zeros page_size)
      (zeros page_size) (omega arith) (omega arith) (omega arith) (length-encode_header header)
      (length-zeros page_size) (disk_page 3 (omega arith))

deallocate_page-HasFree_example :
    ((is_refused disk 3 ≡ true) × (deallocate_page ram 3 disk ≡ (thrown (refused 3), disk)))
    ⊎ ((s' : Disk Ram) × (is_refused disk 3 ≡ false)
        × (deallocate_page ram 3 disk ≡ (done tt, s'))
        × HasFree page s' (3 ∷ []))
deallocate_page-HasFree_example =
    deallocate_page-HasFree ram ram-IsReliable disk [] 3 disk-HasFree tt tt (omega arith)

-- The same file with page 3 free: it begins with the invalid id.
abbrev freed : Disk Ram
freed = record {
  file = record { blocks = λ i. some (255 ∷ 255 ∷ 255 ∷ 255 ∷ zeros 4092); total = 4; at = 0 };
  reads = 0;
  writes = 0;
  header = record header { free_list_head = 3; num_free_pages = 1 };
  header_dirty = false;
}

freed-HasFree : HasFree page freed (3 ∷ [])
freed-HasFree = record {
  linked = (
    refl,
    omega arith,
    255 ∷ 255 ∷ 255 ∷ 255 ∷ zeros 4092,
    ground (arith, length-zeros 4092),
    refl,
  );
  distinct = (tt, tt);
  counted = refl;
  bounded = omega arith;
}

abbrev three : List ℕ
three = 3 ∷ []

allocate_page-HasFree_example :
    ((three ≡ []) × (allocate_page ram (zeros page_size) freed ≡ (undefined, freed)))
    ⊎ ((id : ℕ) × (rest : List ℕ) × (s' : Disk Ram) × (three ≡ id ∷ rest)
        × (allocate_page ram (zeros page_size) freed ≡ (done id, s'))
        × (page s'.file id ≡ some (zeros page_size))
        × HasFree page s' rest)
allocate_page-HasFree_example =
    allocate_page-HasFree ram ram-IsReliable freed three (zeros page_size) freed-HasFree
      (length-zeros page_size)

header-IsHeader : IsHeader header 4
header-IsHeader = record {
  words = header-IsWords;
  magic = refl;
  version = omega arith;
  page_bytes = refl;
  page_count = omega arith;
}

abbrev reopened : Disk Ram
reopened = record disk { file = (set_root_page_id ram 3 disk).1.file; reads = 0; writes = 0 }

load-set_root_page_id_example :
    ((set_root_page_id ram 3 disk).0 ≡ done tt)
    × ((load_or_init_header ram (zeros page_size) reopened).0 ≡ done tt)
    × ((load_or_init_header ram (zeros page_size) reopened).1.header
        ≡ record header { root_page_id = 3 })
    × ((load_or_init_header ram (zeros page_size) reopened).1.writes ≡ 0)
load-set_root_page_id_example =
    load-set_root_page_id ram ram-IsReliable disk 3 (zeros page_size) reopened header-IsHeader
      (omega arith) (length-zeros page_size) refl
