-- ===== src/Paging/Cleanup.antt =====
-- arch/x86_64/paging/mod.rs: `cleanup_page_table` and `unassociate_address` of `PageManager`. The address of a
-- table is read from its entry once: `&mut` references do not alias.
use methylenix.Base.{ℕ, zero, suc, ◌+◌, ◌*◌, Bool, true, false, not, ◌&&◌, ◌||◌, if◌then◌else◌}
use methylenix.Memory.Error.{
  PagingError, entry_is_not_found, memory_cache_ran_out, memory_cache_overflowed,
  address_is_not_aligned, address_is_not_canonical, size_is_not_aligned,
}
use methylenix.Paging.Entry.{Entry, set_present}
use methylenix.Paging.Entry.Pml4e
use methylenix.Paging.Entry.Pdpte
use methylenix.Paging.Entry.Pde
use methylenix.Paging.State.{
  Memory, Result, ok, err, panic, PhysicalPages, M, pure, throw, ◌>>=◌, ◌>>◌, load, modify, unwrap,
  free_page_table, physical_address_to_direct_map,
}
use methylenix.Paging.Target.{
  PagingEntry, place_of, get_target_paging_entry, number_of_pml4e, number_of_pdpte, number_of_pde,
}

-- Whether one of the first `n` entries of the table at `t` is present.
unfoldable pub any_present : ℕ → ℕ → Memory → Bool
any_present zero t mem = false
any_present (suc n) t mem = any_present n t mem || (mem (t + 8 * n)).present

-- The entry of a table that is freed, in each of its types.
abbrev pub clear_pde : Entry → Entry
clear_pde e = Pde.set_address_set false (set_present false e)

abbrev pub clear_pdpte : Entry → Entry
clear_pdpte e = Pdpte.set_address_set false (set_present false e)

abbrev pub clear_pml4e : Entry → Entry
clear_pml4e e = Pml4e.set_address_set false (set_present false e)

-- `if err == PagingError::EntryIsNotFound`
abbrev pub is_entry_is_not_found : PagingError → Bool
is_entry_is_not_found entry_is_not_found = true
is_entry_is_not_found memory_cache_ran_out = false
is_entry_is_not_found memory_cache_overflowed = false
is_entry_is_not_found address_is_not_aligned = false
is_entry_is_not_found address_is_not_canonical = false
is_entry_is_not_found size_is_not_aligned = false

module _ {S : Type 0} (pages : PhysicalPages S) (pml4 : ℕ) where
  -- The table at `p`, of the entry at `parent`: `false` where it is in use, so that the function returns.
  unfoldable pub free_table : (Entry → Entry) → ℕ → ℕ → M S Bool
  free_table clear parent p s =
      (if any_present 512 (physical_address_to_direct_map p) s.memory
          then pure false
          else (do free_page_table pages p; modify parent clear; pure true))
        s

  unfoldable pub cleanup_pt : ℕ → Entry → M S Bool
  cleanup_pt pde g =
      if g.present && not (Pde.is_huge g)
      then (do pt ← unwrap (Pde.get_address g); free_table clear_pde pde pt)
      else pure true

  unfoldable pub cleanup_pd : ℕ → ℕ → Entry → M S Bool
  cleanup_pd va pdpte f =
      if f.present && not (Pdpte.is_huge f)
      then (do
        pd ← unwrap (Pdpte.get_address f)
        let pde = physical_address_to_direct_map pd + 8 * number_of_pde va
        g ← load pde
        goes_on ← cleanup_pt pde g
        if goes_on then free_table clear_pdpte pdpte pd else pure false)
      else pure true

  unfoldable pub cleanup_page_table : ℕ → M S (Unit {0})
  cleanup_page_table va = do
    let pml4e = pml4 + 8 * number_of_pml4e va
    e ← load pml4e
    if not (Pml4e.is_address_set e) then pure tt else (do
      pdpt ← unwrap (Pml4e.get_address e)
      let pdpte = physical_address_to_direct_map pdpt + 8 * number_of_pdpte va
      f ← load pdpte
      goes_on ← cleanup_pd va pdpte f
      if goes_on then (do _ ← free_table clear_pml4e pml4e pdpt; pure tt) else pure tt)

  abbrev pub unassociate : ℕ → Bool → Result S PagingEntry → Result S (Unit {0})
  unassociate va entry_may_be_deleted (ok entry s) =
      (do modify (place_of entry) (set_present false); cleanup_page_table va) s
  unassociate va entry_may_be_deleted (err e s) =
      (if is_entry_is_not_found e && entry_may_be_deleted then cleanup_page_table va else throw e) s
  unassociate va entry_may_be_deleted panic = panic

  unfoldable pub unassociate_address : ℕ → Bool → M S (Unit {0})
  unassociate_address va entry_may_be_deleted s =
      unassociate va entry_may_be_deleted
        (get_target_paging_entry pages pml4 va false false false s)
