-- ===== src/Storage/Codec.antt =====
-- page.hpp and fileheader.hpp. A byte is a number below 256; the machine keeps the lowest byte of
-- a `uint32_t` first.
use becoming_an_elite_engine.Base.{
  ℕ, zero, suc, ◌+◌, ◌*◌, ◌/◌, ◌%◌, ◌^◌, ◌-◌, ◌<◌, ◌≡◌, refl, ap, ◌∙◌, List, [], ◌∷◌, ◌++◌, arith,
  length, take, drop,
}

abbrev pub page_size : ℕ
page_size = 4096

abbrev pub invalid_page_id : ℕ
invalid_page_id = 2 ^ 32 - 1

abbrev pub header_page_id : ℕ
header_page_id = 0

-- `SEDB_MAGIC` and `SEDB_VERSION`
abbrev pub sedb_magic : ℕ
sedb_magic = 1111770451

abbrev pub sedb_version : ℕ
sedb_version = 1

-- `Page::data`, `page_size` bytes
abbrev pub Page : Type 0
Page = List ℕ

pub record FileHeader : Type 0 where
  pub magic : ℕ
  pub version : ℕ
  pub page_bytes : ℕ
  pub page_count : ℕ
  pub free_list_head : ℕ
  pub root_page_id : ℕ
  pub num_free_pages : ℕ
  pub reserved : ℕ

-- the bytes that `memset` writes
unfoldable pub zeros : ℕ → List ℕ
zeros zero = []
zeros (suc n) = 0 ∷ zeros n

-- the bytes of a `uint32_t`, and the number that they are
abbrev pub bytes : ℕ → List ℕ
bytes v = v % 256 ∷ v / 256 % 256 ∷ v / 65536 % 256 ∷ v / 16777216 % 256 ∷ []

abbrev pub number : List ℕ → ℕ
number (a ∷ b ∷ c ∷ d ∷ rest) = a + 256 * b + 65536 * c + 16777216 * d
number short = 0

-- `memcpy(data + offset, bytes, length)`
abbrev pub memcpy : Page → ℕ → List ℕ → Page
memcpy page offset source = take offset page ++ (source ++ drop (offset + length source) page)

-- `put` and `get`: the page and the offset, which each of them moves on
abbrev pub put : ℕ → Page × ℕ → Page × ℕ
put v (page, offset) = (memcpy page offset (bytes v), offset + 4)

abbrev pub get : Page → ℕ → ℕ × ℕ
get page offset = (number (drop offset page), offset + 4)

abbrev pub put_header : FileHeader → Page → Page
put_header h page =
    (put h.reserved (
      put h.num_free_pages (
        put h.root_page_id (
          put h.free_list_head
            (put h.page_count (put h.page_bytes (put h.version (put h.magic (page, 0))))))))).0

pub encode_header : FileHeader → Page
encode_header h = put_header h (zeros page_size)

unfoldable pub decode_header : Page → FileHeader
decode_header page =
    let (magic, o1) = get page 0 in
    let (version, o2) = get page o1 in
    let (bytes_of_page, o3) = get page o2 in
    let (count, o4) = get page o3 in
    let (head, o5) = get page o4 in
    let (root, o6) = get page o5 in
    let (free, o7) = get page o6 in
    let (rest, o8) = get page o7 in
    record {
      magic = magic;
      version = version;
      page_bytes = bytes_of_page;
      page_count = count;
      free_list_head = head;
      root_page_id = root;
      num_free_pages = free;
      reserved = rest;
    }

pub length-zeros : (n : ℕ) → length (zeros n) ≡ n
unfolding zeros
length-zeros zero = refl
length-zeros (suc n) = ap suc (length-zeros n)

pub zeros-add : (m n : ℕ) → zeros (m + n) ≡ zeros m ++ zeros n
unfolding zeros
zeros-add zero n = ground arith
zeros-add (suc m) n =
    ap zeros ((let moved : suc m + n ≡ suc (m + n) = omega arith in moved))
    ∙ ap (λ l. 0 ∷ l) (zeros-add m n)

pub number-bytes : (v : ℕ) (rest : List ℕ) → v < 2 ^ 32 → number (bytes v ++ rest) ≡ v
number-bytes v rest h = omega arith

-- the bytes of the eight fields
abbrev fields : FileHeader → List ℕ
fields h =
    bytes h.magic
    ++ (bytes h.version
        ++ (bytes h.page_bytes
            ++ (bytes h.page_count
                ++ (bytes h.free_list_head
                    ++ (bytes h.root_page_id ++ (bytes h.num_free_pages ++ bytes h.reserved))))))

put_header_lem : (h : FileHeader) (rest : Page) → put_header h (zeros 32 ++ rest) ≡ fields h ++ rest
unfolding zeros
put_header_lem h rest = refl

pub encode_header_lem : (h : FileHeader) → encode_header h ≡ fields h ++ zeros 4064
unfolding encode_header
encode_header_lem h = ap (put_header h) (zeros-add 32 4064) ∙ put_header_lem h (zeros 4064)

pub length-encode_header : (h : FileHeader) → length (encode_header h) ≡ page_size
length-encode_header h = ap length (encode_header_lem h) ∙ omega (arith, length-zeros 4064)

-- The fields of a header fit their 32 bits.
pub record IsWords (h : FileHeader) : Type 0 where
  pub magic : h.magic < 2 ^ 32
  pub version : h.version < 2 ^ 32
  pub page_bytes : h.page_bytes < 2 ^ 32
  pub page_count : h.page_count < 2 ^ 32
  pub free_list_head : h.free_list_head < 2 ^ 32
  pub root_page_id : h.root_page_id < 2 ^ 32
  pub num_free_pages : h.num_free_pages < 2 ^ 32
  pub reserved : h.reserved < 2 ^ 32

-- A header whose fields fit 32 bits is decoded from the page that it is encoded to, and this page
-- has 4096 bytes.
pub decode-encode :
    (h : FileHeader)
    → IsWords h
    → (decode_header (encode_header h) ≡ h) × (length (encode_header h) ≡ page_size)
unfolding decode_header
decode-encode h w = (
  ap decode_header (encode_header_lem h)
      ∙ ground (
        arith,
        number-bytes h.magic [] w.magic,
        number-bytes h.version [] w.version,
        number-bytes h.page_bytes [] w.page_bytes,
        number-bytes h.page_count [] w.page_count,
        number-bytes h.free_list_head [] w.free_list_head,
        number-bytes h.root_page_id [] w.root_page_id,
        number-bytes h.num_free_pages [] w.num_free_pages,
        number-bytes h.reserved [] w.reserved,
      ),
  length-encode_header h,
)
