-- ===== src/Ring.antt =====
-- searchengine/internal/kernal/core/datastructures/ringbuffer.hpp: the queue between two pipeline
-- stages. `SIZE` is `2 ^ k`, as the static_assert asks, so `& (SIZE - 1)` is `% 2 ^ k`; the indices
-- are `size_t`, and wrap at 2 ^ 64. A call runs without another between its loads and its stores.
pub mod Queue
pub mod Window
pub mod Refine
pub mod Wrap
mod Tests
use becoming_an_elite_engine.Base.{
  ℕ, ◌+◌, ◌-◌, ◌%◌, ◌^◌, Bool, true, false, Option, none, some, List, leb, ltb, get_elem?, set,
  if◌then◌else◌,
}

pub record Ring {ℓ} (A : Type ℓ) : Type ℓ where
  pub write_index : ℕ
  pub read_index : ℕ
  pub slots : List A

abbrev pub word : ℕ
word = 2 ^ 64

-- `a - b` and `a + 1` of type `size_t`
abbrev pub sub_size : ℕ → ℕ → ℕ
sub_size a b = (a + word - b) % word

abbrev pub next_size : ℕ → ℕ
next_size a = (a + 1) % word

module _ {ℓ} {A : Type ℓ} (k : ℕ) where
  -- the two stores at the end of `push` and of `push_blocking`
  abbrev pub store : Ring A → A → Ring A
  store r item = record r {
    slots = set r.slots (r.write_index % 2 ^ k) item;
    write_index = next_size r.write_index;
  }

  -- the read and the store at the end of `pop` and of `pop_blocking`; `none` for a read outside
  -- the array
  abbrev pub fetch : Ring A → Option A × Ring A
  fetch r =
      (get_elem? r.slots (r.read_index % 2 ^ k), record r { read_index = next_size r.read_index })

  pub push : Ring A → A → Bool × Ring A
  push r item =
      if leb (2 ^ k) (sub_size r.write_index r.read_index) then (false, r) else (true, store r item)

  -- The option is what is written to `item`.
  pub pop : Ring A → Bool × Option A × Ring A
  pop r =
      if leb r.write_index r.read_index
      then (false, none, r)
      else (let (item, r') = fetch r in (true, item, r'))

  -- What `push_blocking` does when the lock is taken: `none` while its predicate makes it wait.
  pub push_blocking : Ring A → A → Option (Ring A)
  push_blocking r item =
      if ltb (sub_size r.write_index r.read_index) (2 ^ k) then some (store r item) else none

  pub pop_blocking : Ring A → Option (Option A × Ring A)
  pop_blocking r = if ltb r.read_index r.write_index then some (fetch r) else none

  pub full : Ring A → Bool
  full r = leb (2 ^ k) (sub_size r.write_index r.read_index)

  pub empty : Ring A → Bool
  empty r = leb r.write_index r.read_index
