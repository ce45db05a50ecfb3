-- ===== src/Storage/FreeList.antt =====
-- The free list of diskmanager.cpp is a stack of page ids, linked through the first bytes of the
-- free pages.
use becoming_an_elite_engine.Base.{
  ℕ, ◌+◌, ◌-◌, ◌%◌, ◌^◌, ◌<◌, ◌≡◌, ◌≢◌, ◌⊎◌, inl, inr, refl, ap, ◌∙◌, sym, subst, Bool, true, false,
  ◌||◌, Option, some, List, [], ◌∷◌, ◌++◌, length, arith, leb, ◌==◌, All, Bool-cases,
}
use becoming_an_elite_engine.Storage.Codec.{
  Page, page_size, invalid_page_id, header_page_id, zeros, memcpy, bytes, number, number-bytes,
  length-zeros, zeros-add,
}
use becoming_an_elite_engine.Storage.File.{Stdio, IsReliable}
use becoming_an_elite_engine.Storage.Disk.{
  Disk, done, thrown, undefined, refused, allocate_page, deallocate_page,
}
use becoming_an_elite_engine.Storage.ReadWrite.{
  after_read, after_write, after_read-page, after_write-page_here, after_write-page_elsewhere,
  read_page_lem, write_page_lem,
}

-- From `head` on, each free page begins with the id of the next, up to the invalid id.
abbrev pub IsLinked : (ℕ → Option Page) → ℕ → List ℕ → Type 0
IsLinked page head [] = head ≡ invalid_page_id
IsLinked page head (id ∷ ids) =
    (head ≡ id)
    × (id ≢ invalid_page_id)
    × (p : Page) × (page id ≡ some p)
    × IsLinked page (number p) ids

abbrev pub IsDistinct : List ℕ → Type 0
IsDistinct [] = Unit
IsDistinct (id ∷ ids) = All (λ j. j ≢ id) ids × IsDistinct ids

pub record HasFree {F : Type 0} (page : F → ℕ → Option Page) (s : Disk F) (ids : List ℕ)
    : Type 0 where
  pub linked : IsLinked (page s.file) s.header.free_list_head ids
  pub distinct : IsDistinct ids
  pub counted : s.header.num_free_pages ≡ length ids
  pub bounded : length ids < 2 ^ 32

-- A list of free pages outlives a change of another page.
IsLinked-frame :
    (page page' : ℕ → Option Page) (head changed : ℕ) (ids : List ℕ)
    → ((j : ℕ) (q : Page) → j ≢ changed → page j ≡ some q → page' j ≡ some q)
    → All (λ j. j ≢ changed) ids
    → IsLinked page head ids
    → IsLinked page' head ids
IsLinked-frame page page' head changed [] keeps others h = h
IsLinked-frame page page' head changed (id ∷ ids) keeps others (at, valid, p, here, rest) = (
  at,
  valid,
  p,
  keeps id p others.0 here,
  IsLinked-frame page page' (number p) changed ids keeps others.1 rest,
)

-- the page that `DeallocatePage` writes
abbrev link : ℕ → Page
link next = memcpy (zeros page_size) 0 (bytes next)

link_lem : (next : ℕ) → link next ≡ bytes next ++ zeros 4092
unfolding zeros
link_lem next = ap (λ l. memcpy l 0 (bytes next)) (zeros-add 4 4092)

length-link : (next : ℕ) → length (link next) ≡ page_size
length-link next = ap length (link_lem next) ∙ omega (arith, length-zeros 4092)

number-link : (next : ℕ) → next < 2 ^ 32 → number (link next) ≡ next
number-link next h = ap number (link_lem next) ∙ number-bytes next (zeros 4092) h

-- what `DeallocatePage` refuses
abbrev pub is_refused : {F : Type 0} → Disk F → ℕ → Bool
is_refused s id = (id == header_page_id) || (id == invalid_page_id) || leb s.header.page_count id

module _ {F : Type 0} (c : Stdio F) {page : F → ℕ → Option Page} {count : F → ℕ}
    (ok : IsReliable c page count) where
  allocate_page_empty :
      (s : Disk F) (stale : Page)
      → s.header.free_list_head ≡ invalid_page_id
      → allocate_page c stale s ≡ (undefined, s)
  unfolding allocate_page
  allocate_page_empty s stale h = ground (arith, h)

  -- the state before the page is filled with zeros
  abbrev taken : Disk F → ℕ → Page → Disk F
  taken s id p = record (after_read c s id) {
    header = record s.header {
      free_list_head = number p;
      num_free_pages = (s.header.num_free_pages + 2 ^ 32 - 1) % 2 ^ 32;
    };
    header_dirty = true;
  }

  abbrev after_allocate : Disk F → ℕ → Page → Disk F
  after_allocate s id p = after_write c (taken s id p) id (zeros page_size)

  allocate_page_lem :
      (s : Disk F) (id : ℕ) (p stale : Page)
      → s.header.free_list_head ≡ id
      → id ≢ invalid_page_id
      → length stale ≡ page_size
      → page s.file id ≡ some p
      → allocate_page c stale s ≡ (done id, after_allocate s id p)
  unfolding allocate_page
  allocate_page_lem s id p stale head valid size h = ground (
    arith,
    head,
    read_page_lem c ok s id p stale valid size h,
    write_page_lem c ok (taken s id p) id (zeros page_size) valid (length-zeros page_size),
  )

  after_allocate-HasFree :
      (s : Disk F) (id : ℕ) (ids : List ℕ) (p : Page)
      → HasFree page s (id ∷ ids)
      → IsLinked (page s.file) (number p) ids
      → HasFree page (after_allocate s id p) ids
  after_allocate-HasFree s id ids p h rest = record {
    linked =
        IsLinked-frame (page s.file) _ (number p) id ids
          (λ j q other e.
            after_write-page_elsewhere c ok (taken s id p) id j (zeros page_size) q
              (length-zeros page_size) other (ap (λ f. f j) (after_read-page c ok s id) ∙ e))
          h.distinct.0 rest;
    distinct = h.distinct.1;
    counted = omega (arith, h.counted, h.bounded);
    bounded = omega (arith, h.bounded);
  }

  -- On a device without faults, if the header and the file have the free pages `ids`, none of them
  -- twice and fewer than 2 ^ 32: `AllocatePage` returns the first of them, which is then filled
  -- with zeros, and the others are the free pages; if there is none, it runs off its end without a
  -- result. What its local page of 4096 bytes holds before does not matter.
  pub allocate_page-HasFree :
      (s : Disk F) (ids : List ℕ) (stale : Page)
      → HasFree page s ids
      → length stale ≡ page_size
      → ((ids ≡ []) × (allocate_page c stale s ≡ (undefined, s)))
        ⊎ ((id : ℕ) × (rest : List ℕ) × (s' : Disk F) × (ids ≡ id ∷ rest)
            × (allocate_page c stale s ≡ (done id, s'))
            × (page s'.file id ≡ some (zeros page_size))
            × HasFree page s' rest)
  allocate_page-HasFree s [] stale h size = inl (refl, allocate_page_empty s stale h.linked)
  allocate_page-HasFree s (id ∷ ids) stale h size =
      let (head, valid, p, here, rest) = h.linked in
      inr (
        id,
        ids,
        after_allocate s id p,
        refl,
        allocate_page_lem s id p stale head valid size here,
        after_write-page_here c ok (taken s id p) id (zeros page_size) (length-zeros page_size),
        after_allocate-HasFree s id ids p h rest,
      )

  abbrev after_deallocate : Disk F → ℕ → Disk F
  after_deallocate s id = record (after_write c s id (link s.header.free_list_head)) {
    header = record s.header {
      free_list_head = id;
      num_free_pages = (s.header.num_free_pages + 1) % 2 ^ 32;
    };
    header_dirty = true;
  }

  deallocate_page_refused :
      (s : Disk F) (id : ℕ)
      → is_refused s id ≡ true
      → deallocate_page c id s ≡ (thrown (refused id), s)
  unfolding deallocate_page
  deallocate_page_refused s id h = ground (arith, h)

  deallocate_page_lem :
      (s : Disk F) (id : ℕ)
      → is_refused s id ≡ false
      → deallocate_page c id s ≡ (done tt, after_deallocate s id)
  unfolding deallocate_page
  deallocate_page_lem s id h = ground (
    arith,
    h,
    write_page_lem c ok s id (link s.header.free_list_head) (ground (arith, h))
        (length-link s.header.free_list_head),
  )

  IsLinked-word :
      (pages : ℕ → Option Page) (head : ℕ) (ids : List ℕ)
      → All (λ j. j < 2 ^ 32) ids
      → IsLinked pages head ids
      → head < 2 ^ 32
  IsLinked-word pages head [] small h = omega arith
  IsLinked-word pages head (id ∷ ids) small h = omega (arith, h.0, small.0)

  after_deallocate-HasFree :
      (s : Disk F) (id : ℕ) (ids : List ℕ)
      → HasFree page s ids
      → All (λ j. j < 2 ^ 32) ids
      → All (λ j. j ≢ id) ids
      → length ids + 1 < 2 ^ 32
      → is_refused s id ≡ false
      → HasFree page (after_deallocate s id) (id ∷ ids)
  after_deallocate-HasFree s id ids h small fresh few allowed =
      let next = s.header.free_list_head in
      record {
        linked = (
          refl,
          ground (arith, allowed),
          link next,
          after_write-page_here c ok s id (link next) (length-link next),
          subst (λ n. IsLinked (page (after_deallocate s id).file) n ids)
              (sym (number-link next (IsLinked-word (page s.file) next ids small h.linked)))
              (IsLinked-frame (page s.file) _ next id ids
                (λ j q other e.
                  after_write-page_elsewhere c ok s id j (link next) q (length-link next) other e)
                fresh h.linked),
        );
        distinct = (fresh, h.distinct);
        counted = omega (arith, h.counted);
        bounded = omega arith;
      }

  -- On a device without faults, if the header and the file have the free pages `ids`, all of 32 bits,
  -- none of them twice, and there can be one more below 2 ^ 32, then for a page that is not free:
  -- `DeallocatePage` refuses page 0, the invalid id and an id that is not below the number of
  -- pages, and then changes nothing; every other page becomes the first of the free pages.
  pub deallocate_page-HasFree :
      (s : Disk F) (ids : List ℕ) (id : ℕ)
      → HasFree page s ids
      → All (λ j. j < 2 ^ 32) ids
      → All (λ j. j ≢ id) ids
      → length ids + 1 < 2 ^ 32
      → ((is_refused s id ≡ true) × (deallocate_page c id s ≡ (thrown (refused id), s)))
        ⊎ ((s' : Disk F) × (is_refused s id ≡ false)
            × (deallocate_page c id s ≡ (done tt, s'))
            × HasFree page s' (id ∷ ids))
  deallocate_page-HasFree s ids id h small fresh few = elim (Bool-cases (is_refused s id)) [
    | inl bad ↦ inl (bad, deallocate_page_refused s id bad)
    | inr allowed ↦ inr (
      after_deallocate s id,
      allowed,
      deallocate_page_lem s id allowed,
      after_deallocate-HasFree s id ids h small fresh few allowed,
    )
  ]
