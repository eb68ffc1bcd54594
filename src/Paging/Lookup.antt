-- ===== src/Paging/Lookup.antt =====
-- `get_target_paging_entry`, called to find an entry only: the entry that the processor finds.
use methylenix.Base.{
  ℕ, zero, suc, ◌+◌, ◌*◌, ◌%◌, ◌≡◌, refl, ◌∙◌, ◌⊎◌, inl, inr, Bool, true, false, Bool-cases, Option,
  none, some, List, [], ◌∷◌, length, ◌<◌, arith,
}
use methylenix.Memory.Error.{entry_is_not_found}
use methylenix.Paging.Entry.{Entry}
use methylenix.Paging.Entry.Pml4e
use methylenix.Paging.Entry.Pdpte
use methylenix.Paging.Entry.Pde
use methylenix.Paging.State.{
  Memory, State, Result, ok, err, panic, PhysicalPages, continue_with,
  physical_address_to_direct_map,
}
use methylenix.Paging.Target.{
  PagingEntry, pdpte_at, pde_at, pte_at, place_of, create_pdpt, create_pd, create_pt,
  get_target_pdpte, get_target_pde, get_target_pte, get_target_paging_entry, entry_in,
  number_of_pml4e, number_of_pdpte, number_of_pde, number_of_pte,
}
use methylenix.Paging.Walk.{index, ends, child, chosen, walk}
use methylenix.Paging.Tree.{Labels, IsTree, index-lt, chosen_below, chosen_absent}
use methylenix.Paging.Tree.Enter.{not_both}
use methylenix.Paging.Levels.{Pml4e-get_address, Pdpte-get_address, Pde-get_address}

abbrev pub level_of : PagingEntry → ℕ
level_of (pdpte_at a) = 2
level_of (pde_at a) = 1
level_of (pte_at a) = 0

-- The entry at `a`, of level `n`, is one that the processor reads on its way from the table at `t`.
abbrev pub OnPath : ℕ → ℕ → Memory → ℕ → ℕ → ℕ → Type 0
OnPath n zero mem t va a = (n ≡ zero) × (t + 8 * index zero va ≡ a)
OnPath n (suc k) mem t va a =
    ((n ≡ suc k) × (t + 8 * index (suc k) va ≡ a))
    ⊎ (let e = mem (t + 8 * index (suc k) va) in
        (e.present ≡ true) × (ends (suc k) e ≡ false) × OnPath n k mem (child e) va a)

-- The call changes nothing. The entry that it returns is one that the processor reads, and the one that it
-- finds, if it is present; if it is not, or the call fails, the processor finds none.
abbrev pub Found : {S : Type 0} → ℕ → ℕ → State S → Result S PagingEntry → Type 0
Found pml4 va s (ok entry s') =
    let e = s.memory (place_of entry) in
    (s' ≡ s)
    × OnPath (level_of entry) 3 s.memory pml4 va (place_of entry)
    × (walk 3 s.memory pml4 va ≡ chosen e.present true (some (level_of entry, e)) none)
Found pml4 va s (err e s') = (s' ≡ s) × (e ≡ entry_is_not_found) × (walk 3 s.memory pml4 va ≡ none)
Found pml4 va s panic = ⊥

entry_in_run :
    {S : Type 0} (o : Option ℕ) (q n : ℕ) (s : State S)
    → o ≡ some q
    → entry_in o n s ≡ ok (physical_address_to_direct_map q + 8 * n) s
entry_in_run o q n s h = rw h refl

module _ {S : Type 0} (pages : PhysicalPages S) (pml4 va : ℕ) (s : State S) where
  abbrev pml4e : ℕ
  pml4e = pml4 + 8 * index 3 va

  pdpte_found :
      va % 4096 ≡ 0
      → (s.memory pml4e).address_set ≡ true
      → get_target_pdpte pages pml4 va false false false s
        ≡ ok (child (s.memory pml4e) + 8 * index 2 va) s
  unfolding get_target_pdpte number_of_pml4e number_of_pdpte index Pml4e.is_address_set
  pdpte_found aligned set = rw (aligned, set, Pml4e-get_address (s.memory pml4e) set) refl

  pdpte_missing :
      va % 4096 ≡ 0
      → (s.memory pml4e).address_set ≡ false
      → get_target_pdpte pages pml4 va false false false s ≡ err entry_is_not_found s
  unfolding get_target_pdpte number_of_pml4e index Pml4e.is_address_set create_pdpt
  pdpte_missing aligned unset = rw (aligned, unset) refl

  module _ (p : ℕ) where
    pde_found :
        (s.memory p).address_set ≡ true
        → (s.memory p).huge ≡ false
        → get_target_pde pages pml4 va false false false (some p) s
          ≡ ok (child (s.memory p) + 8 * index 1 va) s
    unfolding get_target_pde number_of_pde index Pdpte.is_address_set
    pde_found set small = rw (set, Pdpte-get_address (s.memory p) set small) refl

    pde_missing :
        (s.memory p).address_set ≡ false
        → get_target_pde pages pml4 va false false false (some p) s ≡ err entry_is_not_found s
    unfolding get_target_pde Pdpte.is_address_set create_pd
    pde_missing unset = rw unset refl

    pte_found :
        (s.memory p).address_set ≡ true
        → (s.memory p).huge ≡ false
        → get_target_pte pages pml4 va false false (some p) s
          ≡ ok (child (s.memory p) + 8 * index 0 va) s
    unfolding get_target_pte number_of_pte index Pde.is_address_set
    pte_found set small = rw (set, Pde-get_address (s.memory p) set small) refl

    pte_missing :
        (s.memory p).address_set ≡ false
        → get_target_pte pages pml4 va false false (some p) s ≡ err entry_is_not_found s
    unfolding get_target_pte Pde.is_address_set create_pt
    pte_missing unset = rw unset refl

  -- The walk from each level.
  level_absent :
      (k t : ℕ) → (s.memory (t + 8 * index k va)).present ≡ false → walk k s.memory t va ≡ none
  unfolding walk
  level_absent zero t h = chosen_absent _ _ _ h
  level_absent (suc k) t h = chosen_absent _ _ _ h

  level_ends :
      (k t : ℕ)
      → let e = s.memory (t + 8 * index (suc k) va) in
        ends (suc k) e ≡ true
        → walk (suc k) s.memory t va ≡ chosen e.present true (some (suc k, e)) none
  unfolding walk
  level_ends k t h = large _ _ _ h
    where
      large :
          {e : Bool} (p : Bool) (here below : Option (ℕ × Entry))
          → e ≡ true
          → chosen p e here below ≡ chosen p true here none
      large p here below h = ground arith

  level_on :
      (k t : ℕ)
      → let e = s.memory (t + 8 * index (suc k) va) in
        e.present ≡ true
        → ends (suc k) e ≡ false
        → walk (suc k) s.memory t va ≡ walk k s.memory (child e) va
  unfolding walk
  level_on k t h g = chosen_below _ h g

  module _ {InUse : S → ℕ → Type 0} {label : Labels} (tree : IsTree InUse pml4 label s) where
    pub absent :
        (t i k : ℕ) (l : List ℕ)
        → label t ≡ some l
        → length l + suc k ≡ 3
        → i < 512
        → (s.memory (t + 8 * i)).address_set ≡ false
        → (s.memory (t + 8 * i)).present ≡ false
    absent t i k l at level lt unset = elim (Bool-cases (s.memory (t + 8 * i)).present) [
      | inl here ↦ absurd (not_both ((tree.linked t i k l at level lt).0 here) unset)
      | inr none_here ↦ none_here
    ]

    -- From the page directory on, for the pointer `p` to its entry.
    from_pde :
        (t : ℕ)
        → label t ≡ some (index 2 va ∷ index 3 va ∷ [])
        → walk 3 s.memory pml4 va ≡ walk 1 s.memory t va
        → ((n a : ℕ) → OnPath n 1 s.memory t va a → OnPath n 3 s.memory pml4 va a)
        → (s.memory (t + 8 * index 1 va)).huge ≡ false
        → Found pml4 va s (
            continue_with
              (λ pte. ok (pte_at pte))
              (get_target_pte pages pml4 va false false (some (t + 8 * index 1 va)) s))
    unfolding walk
    from_pde t at here up small =
        let p = t + 8 * index 1 va in
        let lt = index-lt 1 va in
        elim (Bool-cases (s.memory p).address_set) [
          | inl set ↦
              let (present, leads) = (tree.linked t (index 1 va) 0 _ at refl lt).1 set in
              rw (pte_found p set small) (
                refl,
                up 0 _ (inr (present, small, (refl, refl))),
                here ∙ level_on 0 t present small,
              )
          | inr unset ↦
              rw (pte_missing p unset)
                (refl, refl, here ∙ level_absent 1 t (absent t (index 1 va) 0 _ at refl lt unset))
        ]

    -- From the page directory pointer table on.
    from_pdpte :
        (t : ℕ)
        → label t ≡ some (index 3 va ∷ [])
        → walk 3 s.memory pml4 va ≡ walk 2 s.memory t va
        → ((n a : ℕ) → OnPath n 2 s.memory t va a → OnPath n 3 s.memory pml4 va a)
        → get_target_pdpte pages pml4 va false false false s ≡ ok (t + 8 * index 2 va) s
        → Found pml4 va s (get_target_paging_entry pages pml4 va false false false s)
    unfolding get_target_paging_entry Pdpte.is_huge Pde.is_huge
    from_pdpte t at here up run =
        let p = t + 8 * index 2 va in
        let lt = index-lt 2 va in
        elim (Bool-cases (s.memory p).huge) [
          | inl large ↦
              rw (run, large) (refl, up 2 p (inl (refl, refl)), here ∙ level_ends 1 t large)
          | inr small ↦ elim (Bool-cases (s.memory p).address_set) [
            | inl set ↦
                let (present, leads) = (tree.linked t (index 2 va) 1 _ at refl lt).1 set in
                let q = child (s.memory p) + 8 * index 1 va in
                let below = here ∙ level_on 1 t present small in
                elim (Bool-cases (s.memory q).huge) [
                  | inl large ↦
                      rw (run, small, pde_found p set small, large)
                        (
                          refl,
                          up 1 q (inr (present, small, inl (refl, refl))),
                          below ∙ level_ends 0 (child (s.memory p)) large,
                        )
                  | inr small' ↦
                      rw (run, small, pde_found p set small, small')
                        (from_pde (child (s.memory p)) (leads small) below
                          (λ n a on. up n a (inr (present, small, on))) small')
                ]
            | inr unset ↦
                rw (run, small, pde_missing p unset)
                  (refl, refl, here ∙ level_absent 2 t (absent t (index 2 va) 1 _ at refl lt unset))
          ]
        ]

    -- For an aligned address in a tree of tables, `get_target_paging_entry` that is to create nothing does not
    -- panic and changes nothing, and agrees with the processor: the entry that it returns, of whichever level,
    -- is on the way of the processor at that level, which finds it if it is present; if it is not present, or the call fails with
    -- EntryIsNotFound, the processor finds none.
    pub get_target_paging_entry-Found :
        va % 4096 ≡ 0 → Found pml4 va s (get_target_paging_entry pages pml4 va false false false s)
    unfolding get_target_paging_entry
    get_target_paging_entry-Found aligned =
        let lt = index-lt 3 va in
        elim (Bool-cases (s.memory pml4e).address_set) [
          | inl set ↦
              let (present, leads) = (tree.linked pml4 (index 3 va) 2 [] tree.root refl lt).1 set in
              from_pdpte (child (s.memory pml4e)) (leads refl) (level_on 2 pml4 present refl)
                (λ n a on. inr (present, refl, on)) (pdpte_found aligned set)
          | inr unset ↦ rw (pdpte_missing aligned unset) (
            refl,
            refl,
            level_absent 3 pml4 (absent pml4 (index 3 va) 2 [] tree.root refl lt unset),
          )
        ]
