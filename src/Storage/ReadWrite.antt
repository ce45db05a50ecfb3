-- ===== src/Storage/ReadWrite.antt =====
-- What reading and writing a page do on a device without faults.
use becoming_an_elite_engine.Base.{
  ℕ, ◌+◌, ◌-◌, ◌*◌, ◌%◌, ◌^◌, ◌≡◌, ◌≢◌, refl, ap, ◌∙◌, sym, subst, Option, some, List, [], ◌∷◌,
  ◌++◌, length, drop, take, arith, append-nil, take-append-drop,
}
use becoming_an_elite_engine.Storage.Codec.{Page, page_size, invalid_page_id, zeros, memcpy}
use becoming_an_elite_engine.Storage.File.{Stdio, IsReliable}
use becoming_an_elite_engine.Storage.Disk.{Disk, done, read_page, write_page}

drop-length {ℓ} : {A : Type ℓ} (xs : List A) → drop (length xs) xs ≡ []
drop-length [] = refl
drop-length (x ∷ xs) = ground (arith, drop-length xs)

drop-all {ℓ} : {A : Type ℓ} (n : ℕ) (xs : List A) → length xs ≡ n → drop n xs ≡ []
drop-all n xs h = subst (λ m. drop m xs ≡ []) h (drop-length xs)

memcpy-start : (out p : Page) → length out ≡ length p → memcpy out 0 p ≡ p
memcpy-start out p h =
    ap (λ n. p ++ drop n out) (let zero_add : 0 + length p ≡ length p = omega arith in zero_add)
    ∙ ap (λ l. p ++ l) (drop-all (length p) out h)
    ∙ append-nil p

memcpy-end : (p : Page) → memcpy p (length p) [] ≡ p
memcpy-end p =
    ap (λ n. take (length p) p ++ drop n p)
      (let add_zero : length p + 0 ≡ length p = omega arith in add_zero)
    ∙ take-append-drop (length p) p

-- a buffer that a full page was read into, with nothing to fill behind it
refill :
    (out p : Page)
    → length out ≡ page_size
    → length p ≡ page_size
    → memcpy (memcpy out 0 p) (length p) (zeros (page_size - length p)) ≡ p
unfolding zeros
refill out p h k =
    ap (λ l. memcpy l (length p) (zeros (page_size - length p))) (memcpy-start out p (h ∙ sym k))
    ∙ ap (λ n. memcpy p (length p) (zeros n))
        (let none_left : page_size - length p ≡ 0 = omega (arith, k) in none_left)
    ∙ memcpy-end p

module _ {F : Type 0} (c : Stdio F) where
  abbrev at : Disk F → ℕ → F
  at s id = (c.fseek_set s.file (id * page_size)).1

  -- the states that a full read and a full write lead to
  abbrev pub after_read : Disk F → ℕ → Disk F
  after_read s id = record s {
    file = c.clearerr (c.fread (at s id) page_size).1;
    reads = (s.reads + 1) % 2 ^ 64;
  }

  abbrev pub after_write : Disk F → ℕ → Page → Disk F
  after_write s id p = record s {
    file = c.fflush (c.fwrite (at s id) p).1;
    writes = (s.writes + 1) % 2 ^ 64;
  }

module _ {F : Type 0} (c : Stdio F) {page : F → ℕ → Option Page} {count : F → ℕ}
    (ok : IsReliable c page count) where
  pub after_read-page : (s : Disk F) (id : ℕ) → page (after_read c s id).file ≡ page s.file
  after_read-page s id = ok.clear_keeps _ ∙ ok.read_keeps _ _ ∙ ok.seek_keeps _ _

  pub after_write-page_here :
      (s : Disk F) (id : ℕ) (p : Page)
      → length p ≡ page_size
      → page (after_write c s id p).file id ≡ some p
  after_write-page_here s id p h = ap (λ f. f id) (ok.flush_keeps _) ∙ ok.write_here s.file id p h

  pub after_write-page_elsewhere :
      (s : Disk F) (id j : ℕ) (p q : Page)
      → length p ≡ page_size
      → j ≢ id
      → page s.file j ≡ some q
      → page (after_write c s id p).file j ≡ some q
  after_write-page_elsewhere s id j p q h other e =
      ap (λ f. f j) (ok.flush_keeps _) ∙ ok.write_elsewhere s.file id j p q h other e

  pub read_page_lem :
      (s : Disk F) (id : ℕ) (p out : Page)
      → id ≢ invalid_page_id
      → length out ≡ page_size
      → page s.file id ≡ some p
      → read_page c id out s ≡ (done p, after_read c s id)
  unfolding read_page
  read_page_lem s id p out valid size h =
      let got = ok.reads s.file id p h in
      let full = ok.whole s.file id p h in
      ground (
        arith,
        ok.seeks s.file (id * page_size),
        got,
        full,
        ok.read_succeeds (at c s id) page_size (ap length got ∙ full),
        refill out p size full,
      )

  pub write_page_lem :
      (s : Disk F) (id : ℕ) (p : Page)
      → id ≢ invalid_page_id
      → length p ≡ page_size
      → write_page c id p s ≡ (done tt, after_write c s id p)
  unfolding write_page
  write_page_lem s id p valid size =
      ground (arith, ok.seeks s.file (id * page_size), ok.writes (at c s id) p)

  -- On a device without faults a write of 4096 bytes to a valid page id succeeds; then these bytes
  -- are read there, and any other valid page that the file had whole is read as before the
  -- write, whatever the buffer of 4096 bytes held.
  pub read-write :
      (s : Disk F) (id other : ℕ) (p q out : Page)
      → id ≢ invalid_page_id
      → other ≢ invalid_page_id
      → other ≢ id
      → length p ≡ page_size
      → length out ≡ page_size
      → page s.file other ≡ some q
      → (s' : Disk F) × (write_page c id p s ≡ (done tt, s'))
        × ((read_page c id out s').0 ≡ done p)
        × ((read_page c other out s').0 ≡ done q)
  read-write s id other p q out valid valid' differ size size' h = (
    after_write c s id p,
    write_page_lem s id p valid size,
    ap (λ r. r.0) (read_page_lem _ id p out valid size' (after_write-page_here s id p size)),
    ap (λ r. r.0)
        (read_page_lem _ other q out valid' size'
          (after_write-page_elsewhere s id other p q size differ h)),
  )
