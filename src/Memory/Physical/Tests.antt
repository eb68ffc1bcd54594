-- ===== src/Memory/Physical/Tests.antt =====
-- The physical memory manager on two free areas.
use methylenix.Base.{
  ℕ, zero, suc, ◌≡◌, refl, sym, ◌∙◌, some, List, [], ◌∷◌, arith, inl, inr, Returns,
}
use methylenix.Memory.Order
use methylenix.Memory.PageOrder.{from_offset}
use methylenix.Memory.Physical.{MemoryEntry, PhysicalMemoryManager, order_of, reserve_memory, alloc}
use methylenix.Memory.Physical.Areas.{Member}
use methylenix.Memory.Physical.Used.{IsManaged, UsedUp, reserve_memory-UsedUp}
use methylenix.Memory.Physical.Alloc.{Allocated, alloc-Allocated}

abbrev low : MemoryEntry
low = record { start = 4096; end = 8191 }

abbrev high : MemoryEntry
high = record { start = 16384; end = 32767 }

abbrev lists : ℕ → List MemoryEntry
lists zero = low ∷ []
lists (suc zero) = []
lists (suc (suc zero)) = high ∷ []
lists (suc (suc (suc k))) = []

abbrev two_areas : PhysicalMemoryManager
two_areas = record {
  memory_size = 65536;
  free_memory_size = 20480;
  chain = low ∷ high ∷ [];
  free_list = lists;
  memory_entry_pool = 4;
}

low_order : order_of low ≡ some 0
unfolding order_of from_offset Order.from_offset Order.to_page_order
low_order = refl

high_order : order_of high ≡ some 2
unfolding order_of from_offset Order.from_offset Order.to_page_order
high_order = refl

some_eq : (j k : ℕ) → some j ≡ some k → j ≡ k
some_eq j k h = cc

in_list :
    (k : ℕ) (f : MemoryEntry)
    → Member f (low ∷ high ∷ [])
    → order_of f ≡ some k
    → Member f (lists k)
in_list k f (inl same) o =
    let e : 0 ≡ k = some_eq 0 k (sym (rw (sym same) low_order) ∙ o) in rw (sym e) (inl same)
in_list k f (inr (inl same)) o =
    let e : 2 ≡ k = some_eq 2 k (sym (rw (sym same) high_order) ∙ o) in rw (sym e) (inl same)
in_list k f (inr (inr none)) o = absurd none

in_chain :
    (k : ℕ) (f : MemoryEntry)
    → Member f (lists k)
    → Member f (low ∷ high ∷ []) × (order_of f ≡ some k)
in_chain zero f (inl same) = (inl same, rw (sym same) low_order)
in_chain zero f (inr none) = absurd none
in_chain (suc zero) f none = absurd none
in_chain (suc (suc zero)) f (inl same) = (inr (inl same), rw (sym same) high_order)
in_chain (suc (suc zero)) f (inr none) = absurd none
in_chain (suc (suc (suc k))) f none = absurd none

two_areas-IsManaged : IsManaged two_areas
two_areas-IsManaged = record {
  areas = omega arith;
  counted = refl;
  listed = record { sound = in_chain; complete = in_list };
}

reserve_memory-UsedUp_example :
    Returns (UsedUp two_areas 20480 4096) (reserve_memory two_areas 20480 4096 0)
reserve_memory-UsedUp_example =
    reserve_memory-UsedUp two_areas high 20480 4096 two_areas-IsManaged (inr (inl refl)) refl
      (omega arith)
      (record {
        some_size = omega arith;
        from = omega arith;
        to = omega arith;
        before = inr (omega arith);
        behind = inr (omega arith);
      })

alloc-Allocated_example : Returns (Allocated two_areas 8192 12) (alloc two_areas 8192 12)
alloc-Allocated_example =
    alloc-Allocated two_areas 8192 12 two_areas-IsManaged (refl, refl, (refl, refl, tt)) refl
      (omega arith) (omega arith) refl (omega arith) (omega arith) (omega arith)
