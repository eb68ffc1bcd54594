-- ===== src/Paging/Cleaned.antt =====
-- `cleanup_page_table`: it does not panic, entries only fade, and every address is mapped as before.
use mathlib.Core.Path.{subst}
use methylenix.Base.{
  ℕ, suc, ◌+◌, ◌*◌, ◌<◌, ◌≡◌, refl, sym, ap, ◌∙◌, inl, inr, Bool, true, false, not, ◌&&◌,
  Bool-cases, none, some, List, [], ◌∷◌, length, arith, if◌then◌else◌, Panics, Returns,
}
use methylenix.Memory.Error.{PagingError, memory_cache_overflowed}
use methylenix.Paging.Entry.{Entry}
use methylenix.Paging.Entry.Pml4e
use methylenix.Paging.Entry.Pdpte
use methylenix.Paging.Entry.Pde
use methylenix.Paging.State.{
  Memory, State, Result, ok, err, panic, PhysicalPages, PhysicalPagesLaws, update, page_size, freed,
  free_page_table, continue_with, pure, ◌>>=◌, physical_address_to_direct_map,
}
use methylenix.Paging.Target.{number_of_pml4e, number_of_pdpte, number_of_pde}
use methylenix.Paging.Cleanup.{
  any_present, clear_pde, clear_pdpte, clear_pml4e, free_table, cleanup_pt, cleanup_pd,
  cleanup_page_table,
}
use methylenix.Paging.Walk.{index, ends, child, walk}
use methylenix.Paging.Tree.{Labels, IsTree, index-lt}
use methylenix.Paging.Tree.Enter.{not_both}
use methylenix.Paging.Create.{Gives, Gives->>=}
use methylenix.Paging.Levels.{Pml4e-get_address, Pdpte-get_address, Pde-get_address}
use methylenix.Paging.Emptied.{emptied}
use methylenix.Paging.Fade.{
  Fades, AllFade, IsFading, child-Fades, present_Fades, set_Fades, AllFade-update,
}

-- What has faded since an earlier state has faded after the call, and the processor finds the same.
abbrev pub Cleaned : {S : Type 0} → ℕ → State S → State S → Type 0
Cleaned pml4 s s' =
    ((m0 : Memory) → AllFade m0 s.memory → AllFade m0 s'.memory)
    × ((va : ℕ) → walk 3 s'.memory pml4 va ≡ walk 3 s.memory pml4 va)

-- Where the table at `p` has no present entry, its entry can be cleared.
abbrev Unused : ℕ → (Entry → Entry) → ℕ → ℕ → Memory → Type 0
Unused pml4 clear parent p mem =
    any_present 512 (physical_address_to_direct_map p) mem ≡ false
    → (va : ℕ) → walk 3 (update mem parent (clear (mem parent))) pml4 va ≡ walk 3 mem pml4 va

-- The physical memory manager refused to free a table.
abbrev pub Overflowed : PagingError → Type 0
Overflowed e = e ≡ memory_cache_overflowed

pub and_not : {a b : Bool} → (a && not b) ≡ true → (a ≡ true) × (b ≡ false)
and_not h = ground arith

pub Gives-mono :
    {S A : Type 0} (P Q : A → State S → Type 0) (E : PagingError → Type 0) (r : Result S A)
    → ((s : State S) → (a : A) → P a s → Q a s)
    → Gives P E r
    → Gives Q E r
Gives-mono P Q E (ok a s) k h = k s a h
Gives-mono P Q E (err e s) k h = h
Gives-mono P Q E panic k h = h

module _ {S : Type 0} (pages : PhysicalPages S) (laws : PhysicalPagesLaws pages) (pml4 : ℕ) where
  free_table-Cleaned :
      (clear : Entry → Entry) (parent p : ℕ) (s : State S)
      → IsFading clear
      → Unused pml4 clear parent p s.memory
      → Gives (λ _. Cleaned pml4 s) Overflowed (free_table pages pml4 clear parent p s)
  unfolding free_table free_page_table
  free_table-Cleaned clear parent p s fading unused =
      elim (Bool-cases (any_present 512 (physical_address_to_direct_map p) s.memory)) [
        | inl used ↦ rw used (λ m0 h. h, λ va. refl)
        | inr free ↦
            rw free
              (after free (pages.free p page_size s.pm_manager) (laws.free_returns p s.pm_manager))
      ]
    where
      after :
          any_present 512 (physical_address_to_direct_map p) s.memory ≡ false
          → (r : Panics (Bool × S)) → Returns (λ _. Unit) r
          → Gives
              (λ _. Cleaned pml4 s)
              Overflowed
              (continue_with
                (λ _ s'.
                  ok true
                    (record s' { memory = update s'.memory parent (clear (s'.memory parent)) }))
                (freed s r))
      after free none h = h
      after free (some (true, pm)) h =
          (λ m0 faded. AllFade-update m0 s.memory parent clear fading faded, unused free)
      after free (some (false, pm)) h = refl

  Cleaned-trans : (s s1 s2 : State S) → Cleaned pml4 s s1 → Cleaned pml4 s1 s2 → Cleaned pml4 s s2
  Cleaned-trans s s1 s2 (faded, same) (faded', same') =
      (λ m0 h. faded' m0 (faded m0 h), λ va. same' va ∙ same va)

  pub pde-IsFading : IsFading clear_pde
  unfolding Pde.set_address_set
  pde-IsFading e = (refl, refl, λ h. absurd (not_both h refl))

  pub pdpte-IsFading : IsFading clear_pdpte
  unfolding Pdpte.set_address_set
  pdpte-IsFading e = (refl, refl, λ h. absurd (not_both h refl))

  pub pml4e-IsFading : IsFading clear_pml4e
  unfolding Pml4e.set_address_set
  pml4e-IsFading e = (refl, refl, λ h. absurd (not_both h refl))

  cleanup_pt-Cleaned :
      (pde : ℕ) (g : Entry) (s : State S)
      → (g.present ≡ true → g.address_set ≡ true)
      → (g.present ≡ true → g.huge ≡ false → Unused pml4 clear_pde pde g.address s.memory)
      → Gives (λ _. Cleaned pml4 s) Overflowed (cleanup_pt pages pml4 pde g s)
  unfolding cleanup_pt Pde.is_huge
  cleanup_pt-Cleaned pde g s set unused = elim (Bool-cases (g.present && not g.huge)) [
    | inr no_table ↦ rw no_table (λ m0 h. h, λ va. refl)
    | inl linked ↦
        let (present, small) = and_not linked in
        rw (linked, Pde-get_address g (set present) small)
          (free_table-Cleaned clear_pde pde g.address s pde-IsFading (unused present small))
  ]

  module _ (va : ℕ) where
    cleanup_pd-Cleaned :
        (pdpte : ℕ) (f : Entry) (s : State S)
        → (f.present ≡ true → f.address_set ≡ true)
        → (f.present ≡ true
            → f.huge ≡ false
            → let g = s.memory (child f + 8 * index 1 va) in
              (g.present ≡ true → g.address_set ≡ true)
              × (g.present ≡ true
                  → g.huge ≡ false
                  → Unused pml4 clear_pde (child f + 8 * index 1 va) g.address s.memory))
        → (f.present ≡ true
            → f.huge ≡ false
            → (s1 : State S) → Cleaned pml4 s s1
            → Unused pml4 clear_pdpte pdpte f.address s1.memory)
        → Gives (λ _. Cleaned pml4 s) Overflowed (cleanup_pd pages pml4 va pdpte f s)
    unfolding cleanup_pd Pdpte.is_huge number_of_pde index
    cleanup_pd-Cleaned pdpte f s set below unused = elim (Bool-cases (f.present && not f.huge)) [
      | inr no_table ↦ rw no_table (λ m0 h. h, λ va. refl)
      | inl linked ↦
          let (present, small) = and_not linked in
          rw (linked, Pdpte-get_address f (set present) small)
            (let pde = child f + 8 * index 1 va in
              Gives->>= {Q = λ _. Cleaned pml4 s} _ Overflowed _ _
                (cleanup_pt-Cleaned pde (s.memory pde) s (below present small).0
                  (below present small).1)
                (λ goes_on s1 cleaned.
                  after_pt s1 (unused present small s1 cleaned) goes_on cleaned))
    ]
      where
        after_pt :
            (s1 : State S)
            → Unused pml4 clear_pdpte pdpte f.address s1.memory
            → (goes_on : Bool) → Cleaned pml4 s s1
            → Gives
                (λ _. Cleaned pml4 s)
                Overflowed
                ((if goes_on then free_table pages pml4 clear_pdpte pdpte f.address else pure false)
                  s1)
        after_pt s1 unused1 true cleaned =
            Gives-mono (λ _. Cleaned pml4 s1) (λ _. Cleaned pml4 s) Overflowed _
              (λ s2 b h. Cleaned-trans s s1 s2 cleaned h)
              (free_table-Cleaned clear_pdpte pdpte f.address s1 pdpte-IsFading unused1)
        after_pt s1 unused1 false cleaned = cleaned

    -- A present entry is as it was in the tree.
    pub entry_kept :
        {label : Labels} (s0 s : State S)
        → IsTree laws.InUse pml4 label s0
        → AllFade s0.memory s.memory
        → (t i k : ℕ) (l : List ℕ) → label t ≡ some l
        → length l + suc k ≡ 3
        → i < 512
        → let e = s.memory (t + 8 * i) in
          e.present ≡ true
          → (e.address_set ≡ true) × (ends (suc k) e ≡ false → label (child e) ≡ some (i ∷ l))
    entry_kept {label = label} s0 s tree fades t i k l at level lt here =
        let a = t + 8 * i in
        let same = present_Fades _ _ (fades a) here in
        let (set, leads) = tree.linked t i k l at level lt in
        let was = ap (λ (x : Entry). x.present) (sym same) ∙ here in
        subst
          (λ x. (x.address_set ≡ true) × (ends (suc k) x ≡ false → label (child x) ≡ some (i ∷ l)))
          (sym same) (set was, λ goes. (leads (set was)).1 goes)

    pub pdpt_label :
        {label : Labels} (s0 s : State S)
        → IsTree laws.InUse pml4 label s0
        → AllFade s0.memory s.memory
        → let e = s.memory (pml4 + 8 * index 3 va) in
          e.address_set ≡ true → label (child e) ≡ some (index 3 va ∷ [])
    pdpt_label {label = label} s0 s tree fades set =
        let a = pml4 + 8 * index 3 va in
        let linked = tree.linked pml4 (index 3 va) 2 [] tree.root refl (index-lt 3 va) in
        ap label (child-Fades _ _ (fades a)) ∙ (linked.1 (set_Fades _ _ (fades a) set)).1 refl

    -- An entry of a table of the tree can be cleared later, since its own table stays where it is.
    Unused-later :
        {label : Labels} (s0 s : State S) (clear : Entry → Entry)
        → IsTree laws.InUse pml4 label s0
        → AllFade s0.memory s.memory
        → IsFading clear
        → (t i k : ℕ) (l : List ℕ) → label t ≡ some l
        → length l + suc k ≡ 3
        → i < 512
        → ((s.memory (t + 8 * i)).present ≡ true → ends (suc k) (s.memory (t + 8 * i)) ≡ false)
        → (s1 : State S) → Cleaned pml4 s s1
        → Unused pml4 clear (t + 8 * i) (s.memory (t + 8 * i)).address s1.memory
    Unused-later s0 s clear tree fades fading t i k l at level lt goes s1 (faded, same) =
        let a = t + 8 * i in
        let since : Fades (s.memory a) (s1.memory a) = faded s.memory (λ x. inl refl) a in
        emptied tree s1.memory (faded s0.memory fades) t i k l at level lt (clear (s1.memory a))
          (fading (s1.memory a)).0 (s.memory a).address (child-Fades _ _ since)
          (λ here.
            let kept = present_Fades _ _ since here in
            ap (ends (suc k)) kept ∙ goes (ap (λ (x : Entry). x.present) (sym kept) ∙ here))

    -- From a state whose entries have faded since the tables formed a tree.
    pub cleanup_page_table-Cleaned :
        {label : Labels} (s0 s : State S)
        → IsTree laws.InUse pml4 label s0
        → AllFade s0.memory s.memory
        → Gives (λ _. Cleaned pml4 s) Overflowed (cleanup_page_table pages pml4 va s)
    unfolding cleanup_page_table number_of_pml4e number_of_pdpte index Pml4e.is_address_set
    cleanup_page_table-Cleaned s0 s tree fades =
        let e = s.memory (pml4 + 8 * index 3 va) in
        elim (Bool-cases e.address_set) [
          | inr unset ↦ rw unset (λ m0 h. h, λ va. refl)
          | inl set ↦
              rw (Pml4e-get_address e set, set)
                (let pdpte = child e + 8 * index 2 va in
                  let f = s.memory pdpte in
                  let lt2 = index-lt 2 va in
                  let lt1 = index-lt 1 va in
                  let table = pdpt_label s0 s tree fades set in
                  let first =
                    entry_kept s0 s tree fades (child e) (index 2 va) 1 _ table refl lt2 in
                  let second = λ (here : f.present ≡ true). λ (small : f.huge ≡ false).
                    entry_kept s0 s tree fades (child f) (index 1 va) 0 _ ((first here).1 small)
                      refl lt1 in
                  let now : Cleaned pml4 s s = (λ m0 h. h, λ va. refl) in
                  Gives->>= {Q = λ _. Cleaned pml4 s} _ Overflowed _ _
                    (cleanup_pd-Cleaned pdpte f s (λ here. (first here).0)
                      (λ here small. (
                        λ here'. (second here small here').0,
                        λ here' small'.
                            Unused-later s0 s clear_pde tree fades pde-IsFading (child f)
                              (index 1 va) 0 _ ((first here).1 small) refl lt1 (λ h. small') s now,
                      ))
                      (λ here small.
                        Unused-later s0 s clear_pdpte tree fades pdpte-IsFading (child e)
                          (index 2 va) 1 _ table refl lt2 (λ h. small)))
                    (λ goes_on s1 cleaned.
                      after_pd e.address s1 cleaned
                        (Unused-later s0 s clear_pml4e tree fades pml4e-IsFading pml4 (index 3 va) 2
                          [] tree.root refl (index-lt 3 va) (λ h. refl) s1 cleaned)
                        goes_on))
        ]
      where
        after_pd :
            (p : ℕ) (s1 : State S)
            → Cleaned pml4 s s1
            → Unused pml4 clear_pml4e (pml4 + 8 * index 3 va) p s1.memory
            → (goes_on : Bool)
            → Gives
                (λ _. Cleaned pml4 s)
                Overflowed
                ((if goes_on
                    then (do
                      _ ← free_table pages pml4 clear_pml4e (pml4 + 8 * index 3 va) p
                      pure tt)
                    else pure tt)
                  s1)
        after_pd p s1 cleaned unused true =
            Gives->>= {Q = λ _. Cleaned pml4 s1} _ Overflowed _ _
              (free_table-Cleaned clear_pml4e (pml4 + 8 * index 3 va) p s1 pml4e-IsFading unused)
              (λ freed s2 h. Cleaned-trans s s1 s2 cleaned h)
        after_pd p s1 cleaned unused false = cleaned
