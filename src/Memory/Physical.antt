-- ===== src/Memory/Physical.antt =====
-- kernel/memory_manager/physical_memory_manager.rs: the free areas of the physical memory.
-- The list that starts at `first_entry`, and each list of `free_list`, is a list of its entries. An entry is
-- known by its area: whenever the code changes one it moves it in the free lists at once. Of the pool of
-- entries only their number is kept. The lock makes each operation one step.
pub mod Areas
pub mod Replace
pub mod FreeList
pub mod Take
pub mod Used
pub mod Search
pub mod Alloc
mod Tests
use methylenix.Base.{
  ℕ, zero, suc, ◌+◌, ◌-◌, ◌≤◌, Bool, true, false, not, ◌&&◌, Option, none, some, List, [], ◌∷◌,
  ◌++◌, ltb, leb, ◌==◌, if◌then◌else◌, Panics, ◌>>=◌, ◌>>◌, assert, add_usize, sub_usize,
}
use methylenix.Memory.Page.{page_shift}
use methylenix.Memory.PageOrder
use methylenix.Memory.Size.{from_address, to_end_address}
use methylenix.Memory.Align.{align_address_and_size, align_address_and_available_size}
use methylenix.Memory.Error.{
  MemoryError, invalid_size, invalid_address, address_not_available, entry_pool_run_out,
}

-- A free area, with the addresses of its first and its last byte.
pub record MemoryEntry : Type 0 where
  pub start : ℕ
  pub end : ℕ

pub record PhysicalMemoryManager : Type 0 where
  pub memory_size : ℕ
  pub free_memory_size : ℕ
  pub chain : List MemoryEntry
  pub free_list : ℕ → List MemoryEntry
  pub memory_entry_pool : ℕ

-- Rust's `Result<(), MemoryError>` with the manager: an error leaves it as it was.
pub data Outcome (A : Type 0) : Type 0 where
  done : A → PhysicalMemoryManager → Outcome A
  failed : MemoryError → Outcome A

abbrev pub num_of_free_list : ℕ
num_of_free_list = 12

-- `MemoryEntry::set_range`
unfoldable pub set_range : ℕ → ℕ → Panics MemoryEntry
set_range start end = do assert (ltb start end); some (record { start = start; end = end })

-- `get_size`
unfoldable pub get_size : MemoryEntry → Panics ℕ
unfolding from_address
get_size e = from_address e.start e.end

unfoldable pub size_to_page_order : ℕ → Panics ℕ
size_to_page_order size = PageOrder.from_offset size (num_of_free_list - 1)

-- `search_entry_containing_address_mut`: the loop stops at the first entry that does not end before the
-- address.
unfoldable pub search_entry_containing_address : ℕ → List MemoryEntry → Option MemoryEntry
search_entry_containing_address address [] = none
search_entry_containing_address address (e ∷ es) =
    let rest = search_entry_containing_address address es in
    if ltb e.start address && ltb e.end address
    then rest
    else if leb e.start address && leb address e.end
    then some e
    else none

-- `size_to_page_order(entry.get_size())`
unfoldable pub order_of : MemoryEntry → Panics ℕ
unfolding get_size size_to_page_order
order_of e = do size ← get_size e; size_to_page_order size

-- An entry stands in a list once, so that taking it out leaves none that starts there.
unfoldable pub without : ℕ → List MemoryEntry → List MemoryEntry
without start [] = []
without start (e ∷ es) = let rest = without start es in if e.start == start then rest else e ∷ rest

-- `unchain_entry_from_free_list`, for an entry that is linked in the list of its order
unfoldable pub unchain : MemoryEntry → (ℕ → List MemoryEntry) → Panics (ℕ → List MemoryEntry)
unfolding order_of without
unchain e lists = do
  order ← order_of e
  some (λ k. if k == order then without e.start (lists k) else lists k)

-- The loop of `chain_entry_to_free_list`: in front of the first entry that is not smaller.
unfoldable pub insert_by_size : MemoryEntry → List MemoryEntry → List MemoryEntry
insert_by_size e [] = e ∷ []
insert_by_size e (f ∷ fs) =
    if leb (e.end - e.start) (f.end - f.start) then e ∷ f ∷ fs else f ∷ insert_by_size e fs

unfoldable pub chain_new : MemoryEntry → (ℕ → List MemoryEntry) → Panics (ℕ → List MemoryEntry)
unfolding order_of insert_by_size
chain_new e lists = do
  order ← order_of e
  some (λ k. if k == order then insert_by_size e (lists k) else lists k)

-- `chain_entry_to_free_list` after `old` has become `e`; the sizes differ wherever it is called so.
unfoldable pub rechain :
    MemoryEntry → MemoryEntry → (ℕ → List MemoryEntry) → Panics (ℕ → List MemoryEntry)
unfolding unchain chain_new
rechain old e lists = do lists' ← unchain old lists; chain_new e lists'

-- What becomes of an entry from which `size` bytes at `start_address` are taken.
pub data Rest : Type 0 where
  nothing_left : Rest
  one_left : MemoryEntry → Rest
  two_left : MemoryEntry → MemoryEntry → Rest
  no_rest : MemoryError → Rest

-- `pool` is the number of entries in the pool, of which `create_memory_entry` takes one.
unfoldable pub take_from : ℕ → MemoryEntry → ℕ → ℕ → Panics Rest
unfolding set_range to_end_address
take_from pool e start_address size =
    let last = to_end_address size start_address in
    if e.start == start_address
    then (if e.end == last
        then some nothing_left
        else do e' ← set_range (add_usize start_address size) e.end; some (one_left e'))
    else if e.end == start_address
    then (if not (size == 1)
        then some (no_rest invalid_address)
        else do e' ← set_range e.start (sub_usize start_address 1); some (one_left e'))
    else if e.end == last
    then (do e' ← set_range e.start (sub_usize start_address 1); some (one_left e'))
    else if pool == 0
    then some (no_rest entry_pool_run_out)
    else (do
      new_entry ← set_range (add_usize start_address size) e.end
      e' ← set_range e.start (sub_usize start_address 1)
      some (two_left e' new_entry))

-- The entries that stand in the place of the one that starts at `start`.
unfoldable pub replace : ℕ → List MemoryEntry → List MemoryEntry → List MemoryEntry
replace start ps [] = []
replace start ps (e ∷ es) = if e.start == start then ps ++ es else e ∷ replace start ps es

abbrev pub is_only : List MemoryEntry → Bool
is_only (e ∷ []) = true
is_only _ = false

-- The part of `define_used_memory` behind the search, for the entry `e`.
unfoldable pub use_entry :
    PhysicalMemoryManager → MemoryEntry → ℕ → ℕ → Rest → Panics (Outcome (Unit {0}))
unfolding replace unchain chain_new rechain
use_entry m e start_address size (no_rest x) = some (failed x)
use_entry m e start_address size nothing_left =
    if is_only m.chain then some (failed address_not_available) else do
      lists ← unchain e m.free_list
      some (
          done tt (record m {
            free_memory_size = sub_usize m.free_memory_size size;
            chain = replace e.start [] m.chain;
            free_list = lists;
            memory_entry_pool = m.memory_entry_pool + 1;
          }))
use_entry m e start_address size (one_left e') = do
  lists ← rechain e e' m.free_list
  some (
      done tt (record m {
        free_memory_size = sub_usize m.free_memory_size size;
        chain = replace e.start (e' ∷ []) m.chain;
        free_list = lists;
      }))
use_entry m e start_address size (two_left e' new_entry) = do
  lists ← rechain e e' m.free_list
  lists' ← chain_new new_entry lists
  some (
      done tt (record m {
        free_memory_size = sub_usize m.free_memory_size size;
        chain = replace e.start (e' ∷ new_entry ∷ []) m.chain;
        free_list = lists';
        memory_entry_pool = m.memory_entry_pool - 1;
      }))

-- `define_used_memory` without an alignment; `target_entry` is the entry to take from, if it is known.
unfoldable pub define_used_unaligned :
    PhysicalMemoryManager → ℕ → ℕ → Option MemoryEntry → Panics (Outcome (Unit {0}))
unfolding search_entry_containing_address take_from use_entry
define_used_unaligned m start_address size target_entry =
    if size == 0
    then some (failed invalid_size)
    else if ltb m.free_memory_size size
    then some (failed invalid_size)
    else elim target_entry [
      | some t ↦ do
        assert (leb t.start start_address)
        assert (leb (to_end_address size start_address) t.end)
        rest ← take_from m.memory_entry_pool t start_address size
        use_entry m t start_address size rest
      | none ↦ elim (search_entry_containing_address start_address m.chain) [
        | none ↦ some (failed invalid_address)
        | some t ↦ do
          rest ← take_from m.memory_entry_pool t start_address size
          use_entry m t start_address size rest
      ]
    ]

unfoldable pub define_used_memory :
    PhysicalMemoryManager → ℕ → ℕ → ℕ → Option MemoryEntry → Panics (Outcome (Unit {0}))
unfolding define_used_unaligned
define_used_memory m start_address size align_order target_entry =
    if size == 0
    then some (failed invalid_size)
    else if ltb m.free_memory_size size
    then some (failed invalid_size)
    else if align_order == 0
    then define_used_unaligned m start_address size target_entry
    else (do
      assert (leb align_order page_shift)
      let aligned = align_address_and_size start_address size align_order
      define_used_unaligned m aligned.0 aligned.1 target_entry)

-- `reserve_memory`
unfoldable pub reserve_memory : PhysicalMemoryManager → ℕ → ℕ → ℕ → Panics (Outcome (Unit {0}))
unfolding define_used_memory
reserve_memory m start_address size align_order =
    define_used_memory m start_address size align_order none

-- Where `alloc` takes `size` bytes from an entry; `none` where they do not fit.
unfoldable pub place_in : MemoryEntry → ℕ → ℕ → Panics (Option ℕ)
unfolding get_size
place_in e size align_order = do
  entry_size ← get_size e
  if not (leb size entry_size)
      then some none
      else if align_order == 0
      then some (some e.start)
      else (do
        (address, available) ← align_address_and_available_size e.start entry_size align_order
        if ltb available size then some none else some (some address))

-- The two loops of `alloc`: the first entry of a list, and of the `n` lists from `order` on, in which the
-- bytes fit.
unfoldable pub search_list : List MemoryEntry → ℕ → ℕ → Panics (Option (MemoryEntry × ℕ))
unfolding place_in
search_list [] size align_order = some none
search_list (e ∷ es) size align_order = do
  place ← place_in e size align_order
  elim place [ some address ↦ some (some (e, address)) | none ↦ search_list es size align_order ]

unfoldable pub search_lists :
    ℕ → ℕ → (ℕ → List MemoryEntry) → ℕ → ℕ → Panics (Option (MemoryEntry × ℕ))
unfolding search_list
search_lists zero order lists size align_order = some none
search_lists (suc n) order lists size align_order = do
  found ← search_list (lists order) size align_order
  elim found [ some r ↦ some (some r) | none ↦ search_lists n (suc order) lists size align_order ]

-- The result of `alloc` is the address.
abbrev pub at_address : ℕ → Outcome (Unit {0}) → Outcome ℕ
at_address address (done u m) = done address m
at_address address (failed e) = failed e

unfoldable pub alloc : PhysicalMemoryManager → ℕ → ℕ → Panics (Outcome ℕ)
unfolding search_lists define_used_memory
alloc m size align_order =
    if size == 0
    then some (failed invalid_size)
    else if leb m.free_memory_size size
    then some (failed invalid_size)
    else (do
      page_order ← size_to_page_order size
      found ← search_lists (num_of_free_list - page_order) page_order m.free_list size align_order
      elim found [
        | none ↦ some (failed address_not_available)
        | some (e, address) ↦ do
          result ← define_used_memory m address size 0 (some e)
          some (at_address address result)
      ])
