-- ===== src/Paging/Tests.antt =====
-- Page tables over a physical memory that hands out one page after the other.
use mathlib.Core.Path.{subst}
use methylenix.Base.{
  ℕ, suc, ◌+◌, ◌*◌, ◌^◌, ◌<◌, ◌≡◌, ◌≢◌, ◌⊎◌, ==_ne, ap, length, refl, sym, inl, inr, true, false,
  Bool-cases, Option, none, some, List, [], ◌∷◌, arith, ◌==◌, ltb, if◌then◌else◌, Panics, Returns,
}
use methylenix.Paging.Entry.{Entry, no_flags}
use methylenix.Paging.State.{
  State, PhysicalPages, PhysicalPagesLaws, NewPage, direct_map_start_address,
  physical_address_to_direct_map,
}
use methylenix.Paging.Target.{get_target_paging_entry}
use methylenix.Paging.Manager.{PageManager, associate_address, associate_area}
use methylenix.Paging.Cleanup.{unassociate_address}
use methylenix.Paging.State.{err}
use methylenix.Paging.Walk.{index, child, walk}
use methylenix.Paging.Tree.{Labels, IsTree, IsLinked}
use methylenix.Paging.Tree.Enter.{not_both}
use methylenix.Paging.Create.{Gives, RanOut}
use methylenix.Paging.Reach.{NotLarge}
use methylenix.Paging.Associate.{Associated, associate_address-Associated}
use methylenix.Memory.Error.{memory_cache_ran_out}
use methylenix.Paging.Failure.{left_behind, associate_address_fails}
use methylenix.Paging.Area.{AreaMapped, associate_area-AreaMapped}
use methylenix.Paging.Lookup.{Found, get_target_paging_entry-Found}
use methylenix.Paging.Unassociate.{Unmapped, Refused, unassociate_address-Unmapped}

-- The state is the number of the next page; every page below it is in use.
abbrev next_page : ℕ → Panics (Option ℕ × ℕ)
next_page k = if ltb k (2 ^ 33) then some (some (k * 4096), suc k) else some (none, k)

abbrev pages : PhysicalPages ℕ
pages = record { alloc = λ size order. next_page; free = λ p size k. some (true, k) }

next_page-NewPage : (k : ℕ) → Returns (NewPage (λ k p. p < k * 4096) k) (next_page k)
next_page-NewPage k = elim (Bool-cases (ltb k (2 ^ 33))) [
  | inl left ↦
      rw left (λ h. omega arith, omega arith, omega arith, ground arith, λ q h. omega arith)
  | inr ran_out ↦ rw ran_out (λ q h. h)
]

abbrev laws : PhysicalPagesLaws pages
laws = record {
  InUse = λ k p. p < k * 4096;
  alloc-NewPage = next_page-NewPage;
  free_returns = λ p k. tt;
}

-- The page map is page 0, and has no entry.
abbrev manager : PageManager
manager = record { pml4 = direct_map_start_address; is_1gb_paging_supported = false }

abbrev empty : State ℕ
empty = record { memory = λ x. no_flags; pm_manager = 1 }

abbrev only_root : Labels
only_root x = if x == direct_map_start_address then some [] else none

root_only : (t : ℕ) (l : List ℕ) → only_root t ≡ some l → t ≡ direct_map_start_address
root_only t l h = ground arith

empty-IsTree : IsTree laws.InUse manager.pml4 only_root empty
empty-IsTree = record {
  root = refl;
  pages = λ t l at. (0, root_only t l at, refl, omega arith, omega arith);
  linked = λ t i k l at level lt. (λ h. absurd (not_both h refl), λ h. absurd (not_both h refl));
}

empty-NotLarge : (va : ℕ) → NotLarge empty.memory manager.pml4 va
unfolding walk
empty-NotLarge va k e found = absurd (none_some found)
  where
    none_some : {A : Type 0} {a : A} → none ≡ some a → ⊥
    none_some h = cc

associate_address-Associated_example :
    Gives
      (λ _. Associated laws.InUse manager.pml4 0x5000 0x40003000 7 empty)
      (RanOut pages)
      (associate_address pages manager 0x5000 0x40003000 7 empty)
associate_address-Associated_example =
    associate_address-Associated pages laws manager 0x5000 0x40003000 7 empty empty-IsTree
      (empty-NotLarge 0x40003000) refl (omega arith) refl refl

associate_area-AreaMapped_example :
    Gives
      (λ r s'. (r ≡ some tt) × AreaMapped laws.InUse manager.pml4 0x5000 0x40003000 7 3 empty s')
      (RanOut pages)
      (associate_area pages manager 4 0x5000 0x40003000 (2 * 4096) 7 empty)
associate_area-AreaMapped_example =
    associate_area-AreaMapped pages laws manager 0x5000 0x40003000 7 2 refl refl (omega arith)
      (omega arith) (omega arith) empty (λ va' from to. empty-NotLarge va') 4 empty-IsTree
      (λ h. omega arith) (omega arith)

-- A table in page 1, whose first entry maps a page of 1 GiB.
abbrev table : ℕ
table = direct_map_start_address + 4096

abbrev to_table : Entry
to_table = record no_flags { present = true; address_set = true; address = 4096 }

abbrev to_large : Entry
to_large = record no_flags { present = true; address_set = true; huge = true; address = 0x40000000 }

abbrev large : State ℕ
large = record {
  memory = λ x.
      if x == direct_map_start_address then to_table else if x == table then to_large else no_flags;
  pm_manager = 2;
}

abbrev two_tables : Labels
two_tables x =
    if x == direct_map_start_address then some [] else if x == table then some (0 ∷ []) else none

two_tables-cases :
    (t : ℕ) (l : List ℕ)
    → two_tables t ≡ some l
    → ((t ≡ direct_map_start_address) × (l ≡ [])) ⊎ ((t ≡ table) × (l ≡ 0 ∷ []))
two_tables-cases t l at = elim (Bool-cases (t == direct_map_start_address)) [
  | inl root ↦
      let found : some [] ≡ some l = rw root at at in
      let empty_list : l ≡ [] = cc in inl (ground arith, empty_list)
  | inr other ↦ elim (Bool-cases (t == table)) [
    | inl second ↦
        let found : some (0 ∷ []) ≡ some l = rw (other, second) at at in
        let one : l ≡ 0 ∷ [] = cc in inr (ground arith, one)
    | inr third ↦ let found : none ≡ some l = rw (other, third) at at in absurd (cc)
  ]
]

no_entry : (x : ℕ) → x ≢ direct_map_start_address → x ≢ table → large.memory x ≡ no_flags
no_entry x h g = rw (==_ne x direct_map_start_address h, ==_ne x table g) refl

no_flags-IsLinked : (k i : ℕ) (l : List ℕ) → IsLinked two_tables k i l no_flags
no_flags-IsLinked k i l = (λ h. absurd (not_both h refl), λ h. absurd (not_both h refl))

root-IsLinked :
    (i : ℕ) → i < 512 → IsLinked two_tables 2 i [] (large.memory (direct_map_start_address + 8 * i))
unfolding physical_address_to_direct_map
root-IsLinked i lt = elim (Bool-cases (i == 0)) [
  | inl first ↦
      let zero_number : 0 ≡ i = ground arith in
      subst (λ j. IsLinked two_tables 2 j [] (large.memory (direct_map_start_address + 8 * j)))
        zero_number (λ h. refl, λ h. (refl, λ g. refl))
  | inr later ↦
      let here : large.memory (direct_map_start_address + 8 * i) ≡ no_flags =
        no_entry (direct_map_start_address + 8 * i) (ground arith) (λ h. omega arith) in
      subst (IsLinked two_tables 2 i []) (sym here) (no_flags-IsLinked 2 i [])
]

table-IsLinked : (i : ℕ) → i < 512 → IsLinked two_tables 1 i (0 ∷ []) (large.memory (table + 8 * i))
table-IsLinked i lt = elim (Bool-cases (i == 0)) [
  | inl first ↦
      let zero_number : 0 ≡ i = ground arith in
      subst (λ j. IsLinked two_tables 1 j (0 ∷ []) (large.memory (table + 8 * j))) zero_number
        (λ h. refl, λ h. (refl, λ g. absurd (not_both refl g)))
  | inr later ↦
      let here : large.memory (table + 8 * i) ≡ no_flags =
        no_entry (table + 8 * i) (λ h. omega arith) (ground arith) in
      subst (IsLinked two_tables 1 i (0 ∷ [])) (sym here) (no_flags-IsLinked 1 i (0 ∷ []))
]

large-IsTree : IsTree laws.InUse manager.pml4 two_tables large
large-IsTree = record {
  root = refl;
  pages = λ t l at. elim (two_tables-cases t l at) [
    | inl (root, numbers) ↦ (0, root, refl, omega arith, omega arith)
    | inr (second, numbers) ↦ (4096, second, refl, omega arith, omega arith)
  ];
  linked = λ t i k l at level lt. elim (two_tables-cases t l at) [
    | inl (root, numbers) ↦
        let same : k ≡ 2 = (let n = ap length numbers in omega arith) in
        rw (root, numbers, same) (root-IsLinked i lt)
    | inr (second, numbers) ↦
        let same : k ≡ 1 = (let n = ap length numbers in omega arith) in
        rw (second, numbers, same) (table-IsLinked i lt)
  ];
}

get_target_paging_entry-Found_example :
    Found manager.pml4 0x3000 large
      (get_target_paging_entry pages manager.pml4 0x3000 false false false large)
get_target_paging_entry-Found_example =
    get_target_paging_entry-Found pages manager.pml4 0x3000 large large-IsTree refl

unassociate_address-Unmapped_example :
    Gives
      (λ _. Unmapped pages laws manager.pml4 0x3000 large)
      (Refused pages laws manager.pml4 0x3000 large false)
      (unassociate_address pages manager.pml4 0x3000 false large)
unassociate_address-Unmapped_example =
    unassociate_address-Unmapped pages laws manager.pml4 0x3000 large large-IsTree false refl

-- No page is left.
abbrev full : State ℕ
full = record large { pm_manager = 2 ^ 33 }

full-IsTree : IsTree laws.InUse manager.pml4 two_tables full
full-IsTree = record {
  root = refl;
  pages = λ t l at.
      let (p, is, aligned, small, used) = large-IsTree.pages t l at in
      (p, is, aligned, small, omega arith);
  linked = large-IsTree.linked;
}

associate_address_fails_example :
    (associate_address pages manager 0x5000 0x40000000 7 full
      ≡ err memory_cache_ran_out (left_behind pages manager 0x40000000 full (2 ^ 33) refl))
    × (walk 3 full.memory manager.pml4 0x40000000 ≡ none)
    × (walk 3
          (left_behind pages manager 0x40000000 full (2 ^ 33) refl).memory
          manager.pml4
          0x40000000
        ≡ walk 1
            (left_behind pages manager 0x40000000 full (2 ^ 33) refl).memory
            (child no_flags)
            0x40000000)
unfolding physical_address_to_direct_map index
associate_address_fails_example =
    associate_address_fails pages manager 0x40000000 full (2 ^ 33) refl 0x5000 7 full-IsTree refl
      refl refl refl refl refl
