-- ===== src/Paging/Tidy.antt =====
-- `cleanup_page_table`: no table on the way of the address is left without a present entry.
use mathlib.Core.Path.{subst}
use methylenix.Base.{
  ℕ, zero, suc, ◌+◌, ◌*◌, ◌<◌, ◌≡◌, ◌≢◌, refl, sym, ap, ◌∙◌, inl, inr, Bool, true, false, not, ◌&&◌,
  Bool-cases, none, some, [], ◌∷◌, arith, if◌then◌else◌, Panics, Returns,
}
use methylenix.Paging.Entry.{Entry}
use methylenix.Paging.Entry.Pml4e
use methylenix.Paging.Entry.Pdpte
use methylenix.Paging.Entry.Pde
use methylenix.Paging.State.{
  Memory, State, ok, PhysicalPages, PhysicalPagesLaws, update, page_size, freed, free_page_table,
  continue_with, pure, ◌>>=◌, physical_address_to_direct_map,
}
use methylenix.Paging.Target.{number_of_pml4e, number_of_pdpte, number_of_pde}
use methylenix.Paging.Cleanup.{
  any_present, clear_pde, clear_pdpte, clear_pml4e, free_table, cleanup_pt, cleanup_pd,
  cleanup_page_table,
}
use methylenix.Paging.Walk.{index, ends, child}
use methylenix.Paging.Tree
use methylenix.Paging.Tree.{Labels, IsTree, index-lt}
use methylenix.Paging.Tree.Enter.{not_both}
use methylenix.Paging.Create.{Gives, Gives->>=, update_self, update_other}
use methylenix.Paging.Levels.{Pml4e-get_address, Pdpte-get_address, Pde-get_address}
use methylenix.Paging.Fade.{AllFade, IsFading}
use methylenix.Paging.Cleaned.{
  Overflowed, Gives-mono, and_not, pde-IsFading, pdpte-IsFading, pml4e-IsFading, entry_kept,
  pdpt_label,
}

-- Each table that the processor reads on its way from the table at `t` has a present entry.
abbrev pub Tidy : ℕ → Memory → ℕ → ℕ → Type 0
Tidy zero mem t va = Unit
Tidy (suc k) mem t va =
    let e = mem (t + 8 * index (suc k) va) in
    e.present ≡ true
    → ends (suc k) e ≡ false
    → ((i : ℕ) × (i < 512) × ((mem (child e + 8 * i)).present ≡ true)) × Tidy k mem (child e) va

some_present :
    (n t : ℕ) (mem : Memory)
    → any_present n t mem ≡ true
    → (i : ℕ) × (i < n) × ((mem (t + 8 * i)).present ≡ true)
unfolding any_present
some_present zero t mem h = absurd (not_both h refl)
some_present (suc n) t mem h = elim (Bool-cases (mem (t + 8 * n)).present) [
  | inl here ↦ (n, omega arith, here)
  | inr gone ↦
      let before : any_present n t mem ≡ true = ground arith in
      let (i, lt, there) = some_present n t mem before in (i, omega arith, there)
]

-- What `free_table` did: nothing, since the table is in use; or the entry is absent.
abbrev Freed : {S : Type 0} → ℕ → ℕ → State S → Bool → State S → Type 0
Freed parent p s false s' =
    (s' ≡ s) × (any_present 512 (physical_address_to_direct_map p) s.memory ≡ true)
Freed parent p s true s' =
    ((s'.memory parent).present ≡ false) × ((x : ℕ) → x ≢ parent → s'.memory x ≡ s.memory x)

-- The tables below an entry are tidy; a level that is not to be looked at further keeps its entry.
abbrev Done : {S : Type 0} → ℕ → ℕ → ℕ → Bool → State S → Type 0
Done k t va b s' =
    Tidy (suc k) s'.memory t va
    × (b ≡ false → (s'.memory (t + 8 * index (suc k) va)).present ≡ true)

Tidy-absent :
    (k t va : ℕ) (mem : Memory)
    → (mem (t + 8 * index (suc k) va)).present ≡ false
    → Tidy (suc k) mem t va
Tidy-absent k t va mem absent here = absurd (not_both here absent)

module _ {S : Type 0} (pages : PhysicalPages S) (laws : PhysicalPagesLaws pages) (pml4 : ℕ) where
  free_table-Freed :
      (clear : Entry → Entry) (parent p : ℕ) (s : State S)
      → IsFading clear
      → Gives (λ b s'. Freed parent p s b s') Overflowed (free_table pages pml4 clear parent p s)
  unfolding free_table free_page_table
  free_table-Freed clear parent p s fading =
      elim (Bool-cases (any_present 512 (physical_address_to_direct_map p) s.memory)) [
        | inl used ↦ rw used (refl, used)
        | inr free ↦
            rw free (after (pages.free p page_size s.pm_manager) (laws.free_returns p s.pm_manager))
      ]
    where
      after :
          (r : Panics (Bool × S))
          → Returns (λ _. Unit) r
          → Gives
              (λ b s'. Freed parent p s b s')
              Overflowed
              (continue_with
                (λ _ s'.
                  ok true
                    (record s' { memory = update s'.memory parent (clear (s'.memory parent)) }))
                (freed s r))
      after none h = h
      after (some (true, pm)) h = (
        ap (λ (e : Entry). e.present) (update_self s.memory parent _)
            ∙ (fading (s.memory parent)).0,
        λ x other. update_other s.memory parent x _ other,
      )
      after (some (false, pm)) h = refl

  -- A level whose table was looked at, where the levels below are tidy.
  Freed-Tidy :
      (k t va p : ℕ) (s1 : State S) (b : Bool) (s' : State S)
      → child (s1.memory (t + 8 * index (suc k) va)) ≡ physical_address_to_direct_map p
      → Tidy k s1.memory (child (s1.memory (t + 8 * index (suc k) va))) va
      → Freed (t + 8 * index (suc k) va) p s1 b s'
      → Tidy (suc k) s'.memory t va
  Freed-Tidy k t va p s1 true s' table below (absent, others) = Tidy-absent k t va s'.memory absent
  Freed-Tidy k t va p s1 false s' table below (same, used) =
      subst (λ (x : State S). Tidy (suc k) x.memory t va) (sym same)
        (λ h goes. (
          subst (λ x. (i : ℕ) × (i < 512) × ((s1.memory (x + 8 * i)).present ≡ true)) (sym table)
              (some_present 512 (physical_address_to_direct_map p) s1.memory used),
          below,
        ))

  Freed-present :
      (a p : ℕ) (s1 : State S) (b : Bool) (s' : State S)
      → (s1.memory a).present ≡ true
      → Freed a p s1 b s'
      → b ≡ false
      → (s'.memory a).present ≡ true
  Freed-present a p s1 true s' here (absent, others) = λ h. absurd (not_both refl h)
  Freed-present a p s1 false s' here (same, used) =
      λ h. ap (λ (x : State S). (x.memory a).present) same ∙ here

  -- A level above an entry that is present.
  used-Tidy :
      (k t va table : ℕ) (s1 : State S)
      → child (s1.memory (t + 8 * index (suc (suc k)) va)) ≡ table
      → Done k table va false s1
      → Tidy (suc (suc k)) s1.memory t va
  used-Tidy k t va table s1 same (tidy, used) = λ h goes. (
    subst (λ x. (i : ℕ) × (i < 512) × ((s1.memory (x + 8 * i)).present ≡ true)) (sym same)
        (index (suc k) va, index-lt (suc k) va, used refl),
    subst (λ x. Tidy (suc k) s1.memory x va) (sym same) tidy,
  )

  Freed-others :
      (a p : ℕ) (s1 : State S) (b : Bool) (s' : State S)
      → Freed a p s1 b s'
      → (x : ℕ) → x ≢ a
      → s'.memory x ≡ s1.memory x
  Freed-others a p s1 true s' (absent, others) = others
  Freed-others a p s1 false s' (same, used) = λ x other. ap (λ (s : State S). s.memory x) same

  module _ (va : ℕ) where
    -- What `cleanup_pt` did to the page directory at `t`.
    abbrev PtDone : ℕ → State S → Bool → State S → Type 0
    PtDone t s b s' =
        Done 0 t va b s' × ((x : ℕ) → x ≢ t + 8 * index 1 va → s'.memory x ≡ s.memory x)

    cleanup_pt-Done :
        (t : ℕ) (s : State S)
        → (let g = s.memory (t + 8 * index 1 va) in g.present ≡ true → g.address_set ≡ true)
        → Gives
            (λ b s'. PtDone t s b s')
            Overflowed
            (cleanup_pt pages pml4 (t + 8 * index 1 va) (s.memory (t + 8 * index 1 va)) s)
    unfolding cleanup_pt Pde.is_huge
    cleanup_pt-Done t s set =
        let pde = t + 8 * index 1 va in
        let g = s.memory pde in
        elim (Bool-cases (g.present && not g.huge)) [
          | inr no_table ↦ rw no_table (
            (
              λ here small. absurd (not_both {b = g.present && not g.huge} (ground arith) no_table),
              λ h. absurd (not_both refl h),
            ),
            λ x other. refl,
          )
          | inl linked ↦
              let (present, small) = and_not linked in
              rw (linked, Pde-get_address g (set present) small)
                (Gives-mono (λ b s'. Freed pde g.address s b s') (λ b s'. PtDone t s b s')
                  Overflowed _
                  (λ s' b h. (
                    (
                      Freed-Tidy 0 t va g.address s b s' refl tt h,
                      Freed-present pde g.address s b s' present h,
                    ),
                    Freed-others pde g.address s b s' h,
                  ))
                  (free_table-Freed clear_pde pde g.address s (pde-IsFading pages laws pml4)))
        ]

    -- What `cleanup_pd` did to the page directory pointer table at `t`.
    abbrev PdDone : ℕ → State S → Bool → State S → Type 0
    PdDone t s b s' =
        let f = s.memory (t + 8 * index 2 va) in
        Done 1 t va b s'
        × ((x : ℕ)
            → x ≢ t + 8 * index 2 va
            → (f.present ≡ true → f.huge ≡ false → x ≢ child f + 8 * index 1 va)
            → s'.memory x ≡ s.memory x)

    cleanup_pd-Done :
        (t : ℕ) (s : State S)
        → let pdpte = t + 8 * index 2 va in
          let f = s.memory pdpte in
          (f.present ≡ true → f.address_set ≡ true)
          → (f.present ≡ true
              → f.huge ≡ false
              → (let g = s.memory (child f + 8 * index 1 va) in
                  g.present ≡ true → g.address_set ≡ true)
                × (pdpte ≢ child f + 8 * index 1 va))
          → Gives (λ b s'. PdDone t s b s') Overflowed (cleanup_pd pages pml4 va pdpte f s)
    unfolding cleanup_pd Pdpte.is_huge number_of_pde index
    cleanup_pd-Done t s set below =
        let pdpte = t + 8 * index 2 va in
        let f = s.memory pdpte in
        let pde = child f + 8 * index 1 va in
        elim (Bool-cases (f.present && not f.huge)) [
          | inr no_table ↦ rw no_table (
            (
              λ here small. absurd (not_both {b = f.present && not f.huge} (ground arith) no_table),
              λ h. absurd (not_both refl h),
            ),
            λ x other other'. refl,
          )
          | inl linked ↦
              let (present, small) = and_not linked in
              let apart = (below present small).1 in
              rw (linked, Pdpte-get_address f (set present) small)
                (Gives->>= {Q = λ b s'. PtDone (child f) s b s'} _ Overflowed _ _
                  (cleanup_pt-Done (child f) s (below present small).0)
                  (λ goes_on s1 done. after_pt present small apart goes_on s1 done))
        ]
      where
        after_pt :
            (s.memory (t + 8 * index 2 va)).present ≡ true
            → (s.memory (t + 8 * index 2 va)).huge ≡ false
            → (t + 8 * index 2 va ≢ child (s.memory (t + 8 * index 2 va)) + 8 * index 1 va)
            → (goes_on : Bool) (s1 : State S)
            → PtDone (child (s.memory (t + 8 * index 2 va))) s goes_on s1
            → Gives
                (λ b s'. PdDone t s b s')
                Overflowed
                ((if goes_on
                    then free_table pages pml4 clear_pdpte
                        (t + 8 * index 2 va)
                        (s.memory (t + 8 * index 2 va)).address
                    else pure false)
                  s1)
        after_pt present small apart false s1 (done, others) =
            let same = others (t + 8 * index 2 va) apart in
            (
              (
                used-Tidy 0 t va (child (s.memory (t + 8 * index 2 va))) s1 (ap child same) done,
                λ h. ap (λ (e : Entry). e.present) same ∙ present,
              ),
              λ x other other'. others x (other' present small),
            )
        after_pt present small apart true s1 ((tidy, used), others) =
            let pdpte = t + 8 * index 2 va in
            let f = s.memory pdpte in
            let same = others pdpte apart in
            let here = ap (λ (e : Entry). e.present) same ∙ present in
            Gives-mono (λ b s'. Freed pdpte f.address s1 b s') (λ b s'. PdDone t s b s') Overflowed
              _
              (λ s' b h. (
                (
                  Freed-Tidy 1 t va f.address s1 b s' (ap child same)
                      (subst (λ x. Tidy 1 s1.memory x va) (sym (ap child same)) tidy) h,
                  Freed-present pdpte f.address s1 b s' here h,
                ),
                λ x other other'.
                    Freed-others pdpte f.address s1 b s' h x other
                    ∙ others x (other' present small),
              ))
              (free_table-Freed clear_pdpte pdpte f.address s1 (pdpte-IsFading pages laws pml4))

    -- From a state whose entries have faded since the tables formed a tree.
    pub cleanup_page_table-Tidy :
        {label : Labels} (s0 s : State S)
        → IsTree laws.InUse pml4 label s0
        → AllFade s0.memory s.memory
        → Gives (λ _ s'. Tidy 3 s'.memory pml4 va) Overflowed (cleanup_page_table pages pml4 va s)
    unfolding cleanup_page_table number_of_pml4e number_of_pdpte index Pml4e.is_address_set
    cleanup_page_table-Tidy {label = label} s0 s tree fades =
        let pml4e = pml4 + 8 * index 3 va in
        let e = s.memory pml4e in
        let lt3 = index-lt 3 va in
        let kept = entry_kept pages laws pml4 va s0 s tree fades in
        elim (Bool-cases e.address_set) [
          | inr unset ↦ rw unset (λ here goes.
              absurd (not_both (kept pml4 (index 3 va) 2 [] tree.root refl lt3 here).0 unset))
          | inl set ↦
              rw (Pml4e-get_address e set, set)
                (let t = child e in
                  let pdpte = t + 8 * index 2 va in
                  let f = s.memory pdpte in
                  let lt2 = index-lt 2 va in
                  let lt1 = index-lt 1 va in
                  let table : label t ≡ some (index 3 va ∷ []) =
                    pdpt_label pages laws pml4 va s0 s tree fades set in
                  let first = kept t (index 2 va) 1 _ table refl lt2 in
                  let one =
                    Tree.lengths_apart tree pml4 t (index 3 va) (index 2 va) [] _ tree.root table
                      lt3 lt2 (λ h. omega arith) in
                  Gives->>= {Q = λ b s'. PdDone t s b s'} _ Overflowed _ _
                    (cleanup_pd-Done t s (λ here. (first here).0)
                      (λ here small.
                        let second = (first here).1 small in
                        (
                          λ here'. (kept (child f) (index 1 va) 0 _ second refl lt1 here').0,
                          Tree.lengths_apart tree t (child f) (index 2 va) (index 1 va) _ _ table
                              second lt2 lt1 (λ h. omega arith),
                        )))
                    (λ goes_on s1 done.
                      after_pd s s1
                        (done.1 pml4e one (λ here small.
                          Tree.lengths_apart tree pml4 (child f) (index 3 va) (index 1 va) [] _
                            tree.root ((first here).1 small) lt3 lt1 (λ h. omega arith)))
                        goes_on done.0))
        ]
      where
        after_pd :
            (s s1 : State S)
            → s1.memory (pml4 + 8 * index 3 va) ≡ s.memory (pml4 + 8 * index 3 va)
            → (goes_on : Bool) → Done 1 (child (s.memory (pml4 + 8 * index 3 va))) va goes_on s1
            → Gives
                (λ _ s'. Tidy 3 s'.memory pml4 va)
                Overflowed
                ((if goes_on
                    then (do
                      _ ←
                          free_table pages pml4 clear_pml4e
                            (pml4 + 8 * index 3 va)
                            (s.memory (pml4 + 8 * index 3 va)).address
                      pure tt)
                    else pure tt)
                  s1)
        after_pd s s1 same false done = used-Tidy 1 pml4 va _ s1 (ap child same) done
        after_pd s s1 same true (tidy, used) =
            let pml4e = pml4 + 8 * index 3 va in
            let p = (s.memory pml4e).address in
            Gives->>= {Q = λ b s'. Freed pml4e p s1 b s'} _ Overflowed _ _
              (free_table-Freed clear_pml4e pml4e p s1 (pml4e-IsFading pages laws pml4))
              (λ b s' h.
                Freed-Tidy 2 pml4 va p s1 b s' (ap child same)
                  (subst (λ x. Tidy 2 s1.memory x va) (sym (ap child same)) tidy) h)
