-- ===== src/Paging/Manager.antt =====
-- arch/x86_64/paging/mod.rs: `associate_address`, `associate_area` and `change_memory_permission` of
-- `PageManager`. The permissions are a word of `MemoryPermissionFlags`.
use methylenix.Base.{
  ℕ, zero, suc, ◌/◌, ◌%◌, ◌^◌, Bool, true, false, not, ◌&&◌, ◌||◌, Option, none, some, ◌==◌, leb,
  if◌then◌else◌, add_usize, sub_usize,
}
use methylenix.Memory.Permission.{is_writable, is_executable, is_user_accessible}
use methylenix.Memory.Error.{address_is_not_aligned, address_is_not_canonical, size_is_not_aligned}
use methylenix.Paging.Entry.{Entry, set_present, set_writable, set_user_accessible, set_no_execute}
use methylenix.Paging.Entry.Pdpte
use methylenix.Paging.Entry.Pde
use methylenix.Paging.Entry.Pte
use methylenix.Paging.State.{
  PhysicalPages, M, pure, throw, ◌>>=◌, ◌>>◌, load, store, modify, unwrap, page_size,
}
use methylenix.Paging.Target.{
  get_target_pdpte, get_target_pde, get_target_pte, get_target_paging_entry, place_of,
}

-- `PageManager`
pub record PageManager : Type 0 where
  pub pml4 : ℕ
  pub is_1gb_paging_supported : Bool

-- The three settings of an entry by the permission.
abbrev pub permit : ℕ → Entry → Entry
permit permission e =
    set_user_accessible (is_user_accessible permission)
      (set_writable (is_writable permission) (set_no_execute (not (is_executable permission)) e))

-- The test of `associate_address`.
abbrev pub is_not_canonical : ℕ → Bool
is_not_canonical va =
    not (va / 2 ^ 48 == 0) && (not (va / 2 ^ 48 == 0xffff) || va / 2 ^ 47 % 2 == 0)

-- The entry of a 4 KiB page.
abbrev pub page_entry : ℕ → ℕ → Entry → Entry
page_entry pa permission e =
    set_present true (permit permission ((Pte.set_address pa (Pte.init e)).1))

module _ {S : Type 0} (pages : PhysicalPages S) (m : PageManager) where
  unfoldable pub associate_address : ℕ → ℕ → ℕ → M S (Unit {0})
  associate_address pa va permission =
      if not (pa % 4096 == 0) || not (va % 4096 == 0)
      then throw address_is_not_aligned
      else if is_not_canonical va
      then throw address_is_not_canonical
      else (do
        pte ← get_target_pte pages m.pml4 va true true none
        modify pte (page_entry pa permission))

  -- The huge entries, which are written only where the present one is not in use: whether it was written.
  unfoldable pub try_pdpte : ℕ → ℕ → ℕ → M S Bool
  try_pdpte pa va permission = do
    pdpte ← get_target_pdpte pages m.pml4 va false true true
    e ← load pdpte
    if e.present then pure false else (do
      h ← unwrap (Pdpte.set_huge true (Pdpte.init e))
      store pdpte (set_present true ((Pdpte.set_address pa (permit permission h)).1))
      pure true)

  unfoldable pub try_pde : ℕ → ℕ → ℕ → M S Bool
  try_pde pa va permission = do
    pde ← get_target_pde pages m.pml4 va false true true none
    e ← load pde
    if e.present then pure false else (do
      h ← unwrap (Pde.set_huge true (Pde.init e))
      store pde (set_present true ((Pde.set_address pa (permit permission h)).1))
      pure true)

  abbrev pub fits_pdpte : ℕ → ℕ → ℕ → Bool
  fits_pdpte pa va left =
      va / 2 ^ 21 % 512 == 0
      && va / 2 ^ 12 % 512 == 0
      && pa % 2 ^ 30 == 0
      && leb 0x40000000 left
      && m.is_1gb_paging_supported

  abbrev pub fits_pde : ℕ → ℕ → ℕ → Bool
  fits_pde pa va left = va / 2 ^ 12 % 512 == 0 && pa % 2 ^ 21 == 0 && leb 0x200000 left

  -- One round of the loop of `associate_area`: the size that it has mapped.
  unfoldable pub associate_some : ℕ → ℕ → ℕ → ℕ → M S ℕ
  associate_some pa va left permission = do
    as_pdpte ← if fits_pdpte pa va left then try_pdpte pa va permission else pure false
    if as_pdpte then pure 0x40000000 else (do
      as_pde ← if fits_pde pa va left then try_pde pa va permission else pure false
      if as_pde then pure 0x200000 else (do associate_address pa va permission; pure page_size))

  -- `while processed_size <= size`; every round maps a page or more, so that `size / page_size + 1` rounds
  -- are enough. `none` is that the fuel has run out.
  unfoldable pub associate_loop : ℕ → ℕ → ℕ → ℕ → ℕ → ℕ → M S (Option (Unit {0}))
  associate_loop zero processed size pa va permission = pure none
  associate_loop (suc fuel) processed size pa va permission =
      if leb processed size
      then (do
        n ←
            associate_some (add_usize pa processed) (add_usize va processed)
              (sub_usize size processed) permission
        associate_loop fuel (add_usize processed n) size pa va permission)
      else pure (some tt)

  unfoldable pub associate_area : ℕ → ℕ → ℕ → ℕ → ℕ → M S (Option (Unit {0}))
  associate_area fuel pa va size permission =
      if not (pa % 4096 == 0) || not (va % 4096 == 0)
      then throw address_is_not_aligned
      else if not (size % 4096 == 0)
      then throw size_is_not_aligned
      else if size == page_size
      then (do associate_address pa va permission; pure (some tt))
      else associate_loop fuel 0 size pa va permission

  unfoldable pub change_memory_permission : ℕ → ℕ → M S (Unit {0})
  change_memory_permission va permission =
      if not (va % 4096 == 0) then throw address_is_not_aligned else (do
        entry ← get_target_paging_entry pages m.pml4 va false false false
        modify (place_of entry) (permit permission))
