-- ===== src/Paging/Failure.antt =====
-- `associate_address` where the allocation of a page directory fails.
use methylenix.Base.{
  ℕ, ◌+◌, ◌*◌, ◌%◌, ◌≡◌, refl, ap, ◌∙◌, true, false, not, none, some, [], ◌∷◌, arith, Bool-cases,
  inl, inr,
}
use methylenix.Memory.Error.{memory_cache_ran_out}
use methylenix.Paging.Entry.{Entry, set_present}
use methylenix.Paging.Entry.Pml4e
use methylenix.Paging.Entry.Pdpte
use methylenix.Paging.State.{
  State, ok, err, continue_with, alloc_page_table, PhysicalPages, page_size, page_shift,
}
use methylenix.Paging.Target.{
  create_pd, get_target_pdpte, get_target_pde, get_target_pte, number_of_pml4e, number_of_pdpte,
}
use methylenix.Paging.Manager.{PageManager, is_not_canonical, associate_address}
use methylenix.Paging.Walk.{index, child, walk}
use methylenix.Paging.Tree
use methylenix.Paging.Tree.{Labels, IsTree, index-lt, walk-Leads, chosen_absent}
use methylenix.Paging.Tree.Enter.{not_both}
use methylenix.Paging.Create.{update_self, update_other}
use methylenix.Paging.Reach.{mark, mark_same}
use methylenix.Paging.Levels.{Pml4e-get_address}

module _ {S : Type 0} (pages : PhysicalPages S) (m : PageManager) (va : ℕ) (s : State S) (pm : S)
    (aligned : va % 4096 ≡ 0) where
  abbrev pml4e : ℕ
  pml4e = m.pml4 + 8 * index 3 va

  abbrev pdpte : ℕ
  pdpte = child (s.memory pml4e) + 8 * index 2 va

  pdpte_run :
      (s.memory pml4e).address_set ≡ true
      → (s.memory pml4e).present ≡ true
      → get_target_pdpte pages m.pml4 va true true true s ≡ ok pdpte (mark pdpte s)
  unfolding get_target_pdpte number_of_pml4e number_of_pdpte index Pml4e.is_address_set
  pdpte_run set present =
      let is_set : not (s.memory pml4e).address_set ≡ false = ap not set in
      let marked = set_present true (s.memory pml4e) in
      let address : Pml4e.get_address ((mark pml4e s).memory pml4e)
          ≡ some (s.memory pml4e).address =
        ap Pml4e.get_address (update_self s.memory pml4e marked) ∙ Pml4e-get_address marked set in
      rw (aligned, is_set, address) (ap (λ u. ok pdpte (mark pdpte u)) (mark_same pml4e s present))

  pde_run :
      (s.memory pdpte).address_set ≡ false
      → pages.alloc page_size page_shift s.pm_manager ≡ some (none, pm)
      → get_target_pde pages m.pml4 va true true true (some pdpte) (mark pdpte s)
        ≡ err memory_cache_ran_out (record (mark pdpte s) { pm_manager = pm })
  unfolding get_target_pde create_pd Pdpte.is_address_set alloc_page_table
  pde_run unset empty =
      rw (update_self s.memory pdpte (set_present true (s.memory pdpte)), unset, empty) refl

  -- The state that is left: the entry is present, and nothing else has changed in memory.
  abbrev pub left_behind : State S
  left_behind = record (mark pdpte s) { pm_manager = pm }

  pde_none_run :
      (s.memory pml4e).address_set ≡ true
      → (s.memory pml4e).present ≡ true
      → (s.memory pdpte).address_set ≡ false
      → pages.alloc page_size page_shift s.pm_manager ≡ some (none, pm)
      → get_target_pde pages m.pml4 va true true true none s ≡ err memory_cache_ran_out left_behind
  unfolding get_target_pde
  pde_none_run set present unset empty =
      ap (continue_with (λ a. get_target_pde pages m.pml4 va true true true (some a)))
        (pdpte_run set present)
      ∙ pde_run unset empty

  failed_run :
      (pa permission : ℕ)
      → pa % 4096 ≡ 0
      → is_not_canonical va ≡ false
      → (s.memory pml4e).address_set ≡ true
      → (s.memory pml4e).present ≡ true
      → (s.memory pdpte).address_set ≡ false
      → pages.alloc page_size page_shift s.pm_manager ≡ some (none, pm)
      → associate_address pages m pa va permission s ≡ err memory_cache_ran_out left_behind
  unfolding associate_address get_target_pte
  failed_run pa permission aligned_pa canonical set present unset empty =
      rw (aligned_pa, aligned, canonical, pde_none_run set present unset empty) refl

  -- For aligned addresses, where the tables form a tree, the page map has a table for the address, that table has
  -- no entry for it, neither a table nor a large page, and the physical memory manager has no page left:
  -- `associate_address` fails with MemoryCacheRanOut. Before, the processor found nothing for the address;
  -- afterwards it goes on at the physical address in the entry, where no table was made.
  pub associate_address_fails :
      {InUse : S → ℕ → Type 0} {label : Labels} (pa permission : ℕ)
      → IsTree InUse m.pml4 label s
      → pa % 4096 ≡ 0
      → is_not_canonical va ≡ false
      → (s.memory pml4e).address_set ≡ true
      → (s.memory pdpte).address_set ≡ false
      → (s.memory pdpte).huge ≡ false
      → pages.alloc page_size page_shift s.pm_manager ≡ some (none, pm)
      → (associate_address pages m pa va permission s ≡ err memory_cache_ran_out left_behind)
        × (walk 3 s.memory m.pml4 va ≡ none)
        × (walk 3 left_behind.memory m.pml4 va
            ≡ walk 1 left_behind.memory (child (s.memory pdpte)) va)
  unfolding walk
  associate_address_fails pa permission tree aligned_pa canonical set unset small empty =
      let (present, leads) =
        (tree.linked m.pml4 (index 3 va) 2 [] tree.root refl (index-lt 3 va)).1 set in
      let t = child (s.memory pml4e) in
      let absent =
        not_present (s.memory pdpte)
          ((tree.linked t (index 2 va) 1 (index 3 va ∷ []) (leads refl) refl (index-lt 2 va)).0)
          unset in
      let apart =
        Tree.lengths_apart tree m.pml4 t (index 3 va) (index 2 va) [] (index 3 va ∷ []) tree.root
          (leads refl) (index-lt 3 va) (index-lt 2 va) (λ h. omega arith) in
      let marked = set_present true (s.memory pdpte) in
      let kept : left_behind.memory pml4e ≡ s.memory pml4e =
        update_other s.memory pdpte pml4e marked apart in
      let here : left_behind.memory pdpte ≡ marked = update_self s.memory pdpte marked in
      (
        failed_run pa permission aligned_pa canonical set present unset empty,
        walk-Leads 2 s.memory m.pml4 t va (present, refl, refl) ∙ absent_walk t absent,
        walk-Leads 2 left_behind.memory m.pml4 t va
              (ap (λ (e : Entry). e.present) kept ∙ present, refl, ap child kept)
            ∙ walk-Leads 1 left_behind.memory t (child (s.memory pdpte)) va (
              ap (λ (e : Entry). e.present) here,
              ap (λ (e : Entry). e.huge) here ∙ small,
              ap child here,
            ),
      )
    where
      not_present :
          (e : Entry)
          → (e.present ≡ true → e.address_set ≡ true)
          → e.address_set ≡ false
          → e.present ≡ false
      not_present e h unset = elim (Bool-cases e.present) [
        | inl there ↦ absurd (not_both (h there) unset)
        | inr nothing ↦ nothing
      ]

      absent_walk :
          (t : ℕ) → (s.memory (t + 8 * index 2 va)).present ≡ false → walk 2 s.memory t va ≡ none
      absent_walk t h = chosen_absent _ _ _ h
