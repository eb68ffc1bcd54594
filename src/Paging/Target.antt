-- ===== src/Paging/Target.antt =====
-- arch/x86_64/paging/mod.rs: `get_target_pdpte`, `get_target_pde`, `get_target_pte` and
-- `get_target_paging_entry`. A `&'static mut` is the address of the entry.
use methylenix.Base.{
  ℕ, ◌+◌, ◌*◌, ◌/◌, ◌%◌, ◌^◌, Bool, true, not, Option, none, some, ◌==◌, if◌then◌else◌,
}
use methylenix.Memory.Error.{entry_is_not_found, address_is_not_aligned}
use methylenix.Paging.Entry.{set_present}
use methylenix.Paging.Entry.Pml4e
use methylenix.Paging.Entry.Pdpte
use methylenix.Paging.Entry.Pde
use methylenix.Paging.Entry.Pte
use methylenix.Paging.State.{
  PhysicalPages, M, pure, throw, ◌>>=◌, ◌>>◌, load, modify, unwrap, when, init_table,
  alloc_page_table, physical_address_to_direct_map, direct_map_to_physical_address,
}

unfoldable pub number_of_pml4e : ℕ → ℕ
number_of_pml4e va = va / 2 ^ 39 % 512

unfoldable pub number_of_pdpte : ℕ → ℕ
number_of_pdpte va = va / 2 ^ 30 % 512

unfoldable pub number_of_pde : ℕ → ℕ
number_of_pde va = va / 2 ^ 21 % 512

unfoldable pub number_of_pte : ℕ → ℕ
number_of_pte va = va / 2 ^ 12 % 512

-- The entry of a number in the table that an entry points to.
abbrev pub entry_in : {S : Type 0} → Option ℕ → ℕ → M S ℕ
entry_in p n = do table ← unwrap p; pure (physical_address_to_direct_map table + 8 * n)

-- `if let Some(p) = known { p } else { m }`
abbrev pub given_or : {S : Type 0} → Option ℕ → M S ℕ → M S ℕ
given_or none m = m
given_or (some p) m = pure p

-- `get_target_paging_entry` returns a `&mut dyn PagingEntry`.
pub data PagingEntry : Type 0 where
  pdpte_at pde_at pte_at : ℕ → PagingEntry

-- The address of an entry, whichever type it has.
abbrev pub place_of : PagingEntry → ℕ
place_of (pdpte_at a) = a
place_of (pde_at a) = a
place_of (pte_at a) = a

module _ {S : Type 0} (pages : PhysicalPages S) where
  -- The parts of the three functions that make a missing table.
  unfoldable pub create_pdpt : ℕ → Bool → M S (Unit {0})
  create_pdpt pml4e should_create_entry =
      if should_create_entry
      then (do
        pdpt_address ← alloc_page_table pages
        init_table Pdpte.init pdpt_address
        modify pml4e Pml4e.init
        modify pml4e (λ e. (Pml4e.set_address (direct_map_to_physical_address pdpt_address) e).1))
      else throw entry_is_not_found

  unfoldable pub create_pd : ℕ → Bool → Bool → M S (Unit {0})
  create_pd pdpte should_set_parent_entry_present should_create_entry =
      if should_create_entry
      then (do
        pd_address ← alloc_page_table pages
        init_table Pde.init pd_address
        modify pdpte Pdpte.init
        modify pdpte (λ e. (Pdpte.set_address (direct_map_to_physical_address pd_address) e).1)
        when should_set_parent_entry_present (modify pdpte (set_present true)))
      else throw entry_is_not_found

  unfoldable pub create_pt : ℕ → Bool → Bool → M S (Unit {0})
  create_pt pde should_set_parent_entry_present should_create_entry =
      if should_create_entry
      then (do
        pt_address ← alloc_page_table pages
        init_table Pte.init pt_address
        modify pde Pde.init
        modify pde (λ e. (Pde.set_address (direct_map_to_physical_address pt_address) e).1)
        when should_set_parent_entry_present (modify pde (set_present true)))
      else throw entry_is_not_found

  module _ (pml4 : ℕ) where
    unfoldable pub get_target_pdpte : ℕ → Bool → Bool → Bool → M S ℕ
    unfolding create_pdpt
    get_target_pdpte va should_set_present should_set_parent_entry_present should_create_entry =
        if not (va % 4096 == 0) then throw address_is_not_aligned else (do
          let pml4e = pml4 + 8 * number_of_pml4e va
          e ← load pml4e
          when (not (Pml4e.is_address_set e)) (create_pdpt pml4e should_create_entry)
          when should_set_parent_entry_present (modify pml4e (set_present true))
          e' ← load pml4e
          pdpte ← entry_in (Pml4e.get_address e') (number_of_pdpte va)
          when should_set_present (modify pdpte (set_present true))
          pure pdpte)

    unfoldable pub get_target_pde : ℕ → Bool → Bool → Bool → Option ℕ → M S ℕ
    unfolding create_pd
    get_target_pde va should_set_present should_set_parent_entry_present should_create_entry known =
        do
          pdpte ← given_or known (
              get_target_pdpte va should_set_parent_entry_present should_set_parent_entry_present
                should_create_entry)
          e ← load pdpte
          when (not (Pdpte.is_address_set e))
              (create_pd pdpte should_set_parent_entry_present should_create_entry)
          e' ← load pdpte
          pde ← entry_in (Pdpte.get_address e') (number_of_pde va)
          when should_set_present (modify pde (set_present true))
          pure pde

    unfoldable pub get_target_pte : ℕ → Bool → Bool → Option ℕ → M S ℕ
    unfolding create_pt
    get_target_pte va should_set_parent_entry_present should_create_entry known = do
      pde ← given_or known (
          get_target_pde va should_set_parent_entry_present should_set_parent_entry_present
            should_create_entry none)
      e ← load pde
      when (not (Pde.is_address_set e))
          (create_pt pde should_set_parent_entry_present should_create_entry)
      e' ← load pde
      entry_in (Pde.get_address e') (number_of_pte va)

    unfoldable pub get_target_paging_entry : ℕ → Bool → Bool → Bool → M S PagingEntry
    get_target_paging_entry va should_set_present should_set_parent_entry_present create = do
      pdpte ← get_target_pdpte va should_set_present should_set_parent_entry_present create
      e ← load pdpte
      if Pdpte.is_huge e
          then (do when should_set_present (modify pdpte (set_present true)); pure (pdpte_at pdpte))
          else (do
            when should_set_parent_entry_present (modify pdpte (set_present true))
            pde ←
                get_target_pde va should_set_present should_set_parent_entry_present create
                  (some pdpte)
            f ← load pde
            if Pde.is_huge f
                then (do when should_set_present (modify pde (set_present true)); pure (pde_at pde))
                else (do
                  when should_set_parent_entry_present (modify pde (set_present true))
                  pte ← get_target_pte va should_set_parent_entry_present create (some pde)
                  when should_set_present (modify pte (set_present true))
                  pure (pte_at pte)))
