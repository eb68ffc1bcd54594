-- ===== src/Paging/Unassociate.antt =====
-- `unassociate_address`: what the processor finds before and after.
use mathlib.Core.Path.{subst}
use methylenix.Base.{
  ℕ, ◌%◌, ◌≡◌, refl, sym, ap, ◌∙◌, ◌⊎◌, inl, inr, Bool, true, false, Bool-cases, none, some,
  if◌then◌else◌,
}
use methylenix.Memory.Error.{PagingError, entry_is_not_found, memory_cache_overflowed}
use methylenix.Paging.Entry.{Entry, set_present}
use methylenix.Paging.State.{
  State, Result, ok, err, panic, PhysicalPages, PhysicalPagesLaws, update, throw,
}
use methylenix.Paging.Target.{PagingEntry, place_of, get_target_paging_entry}
use methylenix.Paging.Cleanup.{cleanup_page_table, unassociate, unassociate_address}
use methylenix.Paging.Walk.{chosen, walk}
use methylenix.Paging.Tree.{Labels, IsTree}
use methylenix.Paging.Create.{Gives, update_self}
use methylenix.Paging.Lookup.{Found, OnPath, level_of, get_target_paging_entry-Found}
use methylenix.Paging.Fade.{AllFade, AllFade-update, walk_gone}
use methylenix.Paging.Page.{InPage, one_page, walk_or_hit}
use methylenix.Paging.Cleaned.{Cleaned, Overflowed, cleanup_page_table-Cleaned}
use methylenix.Paging.Tidy.{Tidy, cleanup_page_table-Tidy}

module _ {S : Type 0} (pages : PhysicalPages S) (laws : PhysicalPagesLaws pages) (pml4 va : ℕ) where
  -- The processor finds nothing for the address, and for another address what it found, unless both are in
  -- the page of the entry that it found for this one; and no table on the way is left empty.
  pub record Unmapped (s s' : State S) : Type 0 where
    pub gone : walk 3 s'.memory pml4 va ≡ none
    pub others :
        (va' : ℕ)
        → (walk 3 s'.memory pml4 va' ≡ walk 3 s.memory pml4 va')
          ⊎ ((n : ℕ) × (e : Entry) × (walk 3 s.memory pml4 va ≡ some (n, e)) × InPage n va va')
    pub tidy : Tidy 3 s'.memory pml4 va

  -- The address was not mapped, and the caller does not allow that.
  abbrev pub Refused : State S → Bool → PagingError → Type 0
  Refused s entry_may_be_deleted e =
      (e ≡ memory_cache_overflowed)
      ⊎ ((e ≡ entry_is_not_found)
          × (entry_may_be_deleted ≡ false)
          × (walk 3 s.memory pml4 va ≡ none))

  -- What the processor finds, where one entry became absent.
  abbrev Beside : State S → State S → ℕ → Type 0
  Beside s s1 va' =
      (walk 3 s1.memory pml4 va' ≡ walk 3 s.memory pml4 va')
      ⊎ ((n : ℕ) × (e : Entry) × (walk 3 s.memory pml4 va ≡ some (n, e)) × InPage n va va')

  module _ {label : Labels} (s : State S) (tree : IsTree laws.InUse pml4 label s)
      (entry_may_be_deleted : Bool) where
    cleaned :
        (s1 : State S)
        → AllFade s.memory s1.memory
        → walk 3 s1.memory pml4 va ≡ none
        → ((va' : ℕ) → Beside s s1 va')
        → Gives
            (λ _. Unmapped s)
            (Refused s entry_may_be_deleted)
            (cleanup_page_table pages pml4 va s1)
    cleaned s1 fades gone beside =
        go _ (cleanup_page_table-Cleaned pages laws pml4 va s s1 tree fades)
          (cleanup_page_table-Tidy pages laws pml4 va s s1 tree fades)
      where
        go :
            (r : Result S (Unit {0}))
            → Gives (λ _. Cleaned pml4 s1) Overflowed r
            → Gives (λ _ s'. Tidy 3 s'.memory pml4 va) Overflowed r
            → Gives (λ _. Unmapped s) (Refused s entry_may_be_deleted) r
        go (ok u s') (faded, same) tidy = record {
          gone = same va ∙ gone;
          others =
              λ va'. elim (beside va') [ inl kept ↦ inl (same va' ∙ kept) | inr page ↦ inr page ];
          tidy = tidy;
        }
        go (err e s') h tidy = inl h
        go panic h tidy = h

    -- The state in which the entry at `a` is absent.
    abbrev without : ℕ → State S
    without a = record s { memory = update s.memory a (set_present false (s.memory a)) }

    without-AllFade : (a : ℕ) → AllFade s.memory (without a).memory
    without-AllFade a =
        AllFade-update s.memory s.memory a (set_present false) (λ e. (refl, refl, λ h. h))
          (λ x. inl refl)

    without-gone :
        (n va' a : ℕ) → OnPath n 3 s.memory pml4 va' a → walk 3 (without a).memory pml4 va' ≡ none
    without-gone n va' a on =
        walk_gone n 3 s.memory (without a).memory pml4 va' a (without-AllFade a) on
          (ap (λ (e : Entry). e.present) (update_self s.memory a _))

    without-Beside :
        (n a : ℕ)
        → OnPath n 3 s.memory pml4 va a
        → walk 3 s.memory pml4 va ≡ chosen (s.memory a).present true (some (n, s.memory a)) none
        → (va' : ℕ) → Beside s (without a) va'
    without-Beside n a on found va' =
        elim (walk_or_hit 3 s.memory pml4 va' a (set_present false (s.memory a))) [
          | inl kept ↦ inl kept
          | inr (n', on') ↦ elim (Bool-cases (s.memory a).present) [
            | inl here ↦ inr (
              n,
              s.memory a,
              found ∙ ap (λ b. chosen b true (some (n, s.memory a)) none) here,
              one_page tree n n' va va' a on on',
            )
            | inr absent ↦ inl (
                without-gone n' va' a on'
                ∙ sym (walk_gone n' 3 s.memory s.memory pml4 va' a (λ x. inl refl) on' absent))
          ]
        ]

    after_found :
        (entry : PagingEntry)
        → OnPath (level_of entry) 3 s.memory pml4 va (place_of entry)
        → (let e = s.memory (place_of entry) in
            walk 3 s.memory pml4 va ≡ chosen e.present true (some (level_of entry, e)) none)
        → Gives
            (λ _. Unmapped s)
            (Refused s entry_may_be_deleted)
            (unassociate pages pml4 va entry_may_be_deleted (ok entry s))
    after_found entry on found =
        let a = place_of entry in
        let n = level_of entry in
        cleaned (without a) (without-AllFade a) (without-gone n va a on)
          (without-Beside n a on found)

    after_missing :
        (b : Bool)
        → entry_may_be_deleted ≡ b
        → walk 3 s.memory pml4 va ≡ none
        → Gives
            (λ _. Unmapped s)
            (Refused s entry_may_be_deleted)
            ((if b then cleanup_page_table pages pml4 va else throw entry_is_not_found) s)
    after_missing true may absent = cleaned s (λ x. inl refl) absent (λ va'. inl refl)
    after_missing false may absent = inr (refl, may, absent)

    after :
        (r : Result S PagingEntry)
        → Found pml4 va s r
        → Gives
            (λ _. Unmapped s)
            (Refused s entry_may_be_deleted)
            (unassociate pages pml4 va entry_may_be_deleted r)
    after (ok entry s1) (same, on, found) =
        subst
          (λ x.
            Gives (λ _. Unmapped s) (Refused s entry_may_be_deleted)
              (unassociate pages pml4 va entry_may_be_deleted (ok entry x)))
          (sym same) (after_found entry on found)
    after (err e s1) (same, is, absent) =
        rw (same, is) (after_missing entry_may_be_deleted refl absent)
    after panic h = h

    -- For an aligned address in a tree of tables, `unassociate_address` does not panic. Where it succeeds,
    -- the processor no longer finds an entry for the address, and finds for every other address what it found
    -- before, unless both are in one page of the size of the entry that was found; and each table that is still
    -- on the way of the address has a present entry. It fails only where the physical memory manager refuses to free a table, or where
    -- the address was not mapped and the caller does not allow that.
    pub unassociate_address-Unmapped :
        va % 4096 ≡ 0
        → Gives
            (λ _. Unmapped s)
            (Refused s entry_may_be_deleted)
            (unassociate_address pages pml4 va entry_may_be_deleted s)
    unfolding unassociate_address
    unassociate_address-Unmapped aligned =
        after (get_target_paging_entry pages pml4 va false false false s)
          (get_target_paging_entry-Found pages pml4 va s tree aligned)
