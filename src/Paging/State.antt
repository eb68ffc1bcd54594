-- ===== src/Paging/State.antt =====
-- What the paging code works on: the entries in memory, by virtual address, and the physical memory
-- manager. A call returns, fails with a state of its own, or panics. kernel/memory_manager's manager is
-- behind an interface: the client uses `alloc` only.
use methylenix.Base.{
  ℕ, zero, suc, ◌+◌, ◌*◌, ◌%◌, ◌^◌, ◌<◌, ◌≡◌, Bool, true, false, Option, none, some, ◌==◌,
  if◌then◌else◌, Panics, Returns, add_usize, sub_usize,
}
use methylenix.Memory.Error.{PagingError, memory_cache_ran_out, memory_cache_overflowed}
use methylenix.Paging.Entry.{Entry}

abbrev pub page_size : ℕ
page_size = 4096

abbrev pub page_shift : ℕ
page_shift = 12

-- context/memory_layout.rs
abbrev pub direct_map_start_address : ℕ
direct_map_start_address = 0xffffa00000000000

unfoldable pub direct_map_to_physical_address : ℕ → ℕ
direct_map_to_physical_address v = sub_usize v direct_map_start_address

unfoldable pub physical_address_to_direct_map : ℕ → ℕ
physical_address_to_direct_map p = add_usize p direct_map_start_address

-- `PhysicalMemoryManager::alloc` of a size and an order, where `none` is an error, and `free` of an address and
-- a size, which tells whether it succeeds.
pub record PhysicalPages (S : Type 0) : Type 0 where
  pub alloc : ℕ → ℕ → S → Panics (Option ℕ × S)
  pub free : ℕ → ℕ → S → Panics (Bool × S)

-- A page that was not in use, and is afterwards; what was in use stays so. Physical memory ends below the
-- size of the direct map.
abbrev pub NewPage : {S : Type 0} → (S → ℕ → Type 0) → S → Option ℕ × S → Type 0
NewPage InUse s (none, s') = (q : ℕ) → InUse s q → InUse s' q
NewPage InUse s (some p, s') =
    ¬ InUse s p × InUse s' p × (p % 4096 ≡ 0) × (p < 2 ^ 45) × ((q : ℕ) → InUse s q → InUse s' q)

pub record PhysicalPagesLaws {S : Type 0} (pages : PhysicalPages S) : Type 1 where
  pub InUse : S → ℕ → Type 0
  pub alloc-NewPage : (s : S) → Returns (NewPage InUse s) (pages.alloc page_size page_shift s)
  pub free_returns : (p : ℕ) (s : S) → Returns (λ _. Unit) (pages.free p page_size s)

abbrev pub Memory : Type 0
Memory = ℕ → Entry

pub record State (S : Type 0) : Type 0 where
  pub memory : Memory
  pub pm_manager : S

pub data Result (S A : Type 0) : Type 0 where
  ok : A → State S → Result S A
  err : PagingError → State S → Result S A
  panic : Result S A

abbrev pub M : Type 0 → Type 0 → Type 0
M S A = State S → Result S A

abbrev pub update : Memory → ℕ → Entry → Memory
update mem a e x = if x == a then e else mem x

-- `for entry in table.iter_mut() { entry.init() }`, for the first `n` entries of the table at `t`
unfoldable pub init_entries : (Entry → Entry) → ℕ → ℕ → Memory → Memory
init_entries init zero t mem = mem
init_entries init (suc n) t mem =
    let rest = init_entries init n t mem in update rest (t + 8 * n) (init (rest (t + 8 * n)))

module _ {S : Type 0} where
  abbrev pub pure : {A : Type 0} → A → M S A
  pure a s = ok a s

  abbrev pub throw : {A : Type 0} → PagingError → M S A
  throw e s = err e s

  abbrev pub continue_with : {A B : Type 0} → (A → M S B) → Result S A → Result S B
  continue_with f (ok a s) = f a s
  continue_with f (err e s) = err e s
  continue_with f panic = panic

  infixl 5 ◌>>=◌ ◌>>◌
  abbrev pub ◌>>=◌ : {A B : Type 0} → M S A → (A → M S B) → M S B
  ◌>>=◌ m f s = continue_with f (m s)

  abbrev pub ◌>>◌ : {B : Type 0} → M S (Unit {0}) → M S B → M S B
  m >> k = m >>= λ _. k

  abbrev pub load : ℕ → M S Entry
  load a s = ok (s.memory a) s

  abbrev pub store : ℕ → Entry → M S (Unit {0})
  store a e s = ok tt (record s { memory = update s.memory a e })

  abbrev pub modify : ℕ → (Entry → Entry) → M S (Unit {0})
  modify a f s = store a (f (s.memory a)) s

  -- `unwrap`, and a failed `assert!`
  abbrev pub unwrap : {A : Type 0} → Panics A → M S A
  unwrap none s = panic
  unwrap (some a) s = ok a s

  -- `if b { m }`
  abbrev pub when : Bool → M S (Unit {0}) → M S (Unit {0})
  when true m = m
  when false m = pure tt

  abbrev pub init_table : (Entry → Entry) → ℕ → M S (Unit {0})
  init_table init t s = ok tt (record s { memory = init_entries init 512 t s.memory })

  abbrev pub allocated : State S → Panics (Option ℕ × S) → Result S ℕ
  allocated s none = panic
  allocated s (some (none, pm)) = err memory_cache_ran_out (record s { pm_manager = pm })
  allocated s (some (some p, pm)) =
      ok (physical_address_to_direct_map p) (record s { pm_manager = pm })

  unfoldable pub alloc_page_table : PhysicalPages S → M S ℕ
  alloc_page_table pages s = allocated s (pages.alloc page_size page_shift s.pm_manager)

  abbrev pub freed : State S → Panics (Bool × S) → Result S (Unit {0})
  freed s none = panic
  freed s (some (true, pm)) = ok tt (record s { pm_manager = pm })
  freed s (some (false, pm)) = err memory_cache_overflowed (record s { pm_manager = pm })

  unfoldable pub free_page_table : PhysicalPages S → ℕ → M S (Unit {0})
  free_page_table pages p s = freed s (pages.free p page_size s.pm_manager)
