-- ===== src/Paging/Emptied.antt =====
-- Tables in which no entry is present: whether the entry that leads to one is there makes no difference.
use mathlib.Core.Path.{subst}
use methylenix.Base.{
  ℕ, zero, suc, ◌+◌, ◌*◌, ◌<◌, ◌≡◌, refl, sym, ap, ◌∙◌, Bool, true, false, ◌||◌, Bool-cases, inl,
  inr, none, some, List, [], ◌∷◌, length, arith, ◌==◌,
}
use methylenix.Paging.Entry.{Entry}
use methylenix.Paging.State.{Memory, State, update, physical_address_to_direct_map}
use methylenix.Paging.Cleanup.{any_present}
use methylenix.Paging.Walk.{index, ends, child, walk}
use methylenix.Paging.Tree
use methylenix.Paging.Tree.{Labels, IsTree, index-lt}
use methylenix.Paging.Tree.Kept.{step, leaf_step, walk_absent, walk_nowhere, empty_table}
use methylenix.Paging.Create.{update_self, update_other}
use methylenix.Paging.Fade.{AllFade, present_Fades}

neither_true : {a b : Bool} → (a || b) ≡ false → (a ≡ false) × (b ≡ false)
neither_true h = ground arith

none_present :
    (n t : ℕ) (mem : Memory)
    → any_present n t mem ≡ false
    → (i : ℕ) → i < n
    → (mem (t + 8 * i)).present ≡ false
unfolding any_present
none_present zero t mem h i lt = absurd (omega arith)
none_present (suc n) t mem h i lt =
    let (before, last) : (any_present n t mem ≡ false) × ((mem (t + 8 * n)).present ≡ false) =
      neither_true h in
    elim (Bool-cases (i == n)) [
      | inl here ↦
          let same : n ≡ i = ground arith in
          subst (λ j. (mem (t + 8 * j)).present ≡ false) same last
      | inr other ↦ none_present n t mem before i (ground arith)
    ]

module _ {S : Type 0} {InUse : S → ℕ → Type 0} {pml4 : ℕ} {label : Labels} {s0 : State S}
    (tree : IsTree InUse pml4 label s0) (mem : Memory) (fades : AllFade s0.memory mem) where
  -- A present entry that does not end the walk leads to the table of its numbers.
  pub leads_on :
      (t i k : ℕ) (l : List ℕ)
      → label t ≡ some l
      → length l + suc k ≡ 3
      → i < 512
      → (mem (t + 8 * i)).present ≡ true
      → ends (suc k) (mem (t + 8 * i)) ≡ false
      → label (child (mem (t + 8 * i))) ≡ some (i ∷ l)
  leads_on t i k l at level lt here goes =
      let same = present_Fades _ _ (fades (t + 8 * i)) here in
      let (set, leads) = tree.linked t i k l at level lt in
      let was = ap (λ (x : Entry). x.present) (sym same) ∙ here in
      ap (λ x. label (child x)) same ∙ (leads (set was)).1 (ap (ends (suc k)) (sym same) ∙ goes)

  -- The entry of a table without present entries becomes absent.
  module _ (t0 i0 k0 : ℕ) (l0 : List ℕ) (at0 : label t0 ≡ some l0) (level0 : length l0 + suc k0 ≡ 3)
      (lt0 : i0 < 512) (e : Entry) (absent : e.present ≡ false) where
    abbrev a0 : ℕ
    a0 = t0 + 8 * i0

    same_level :
        (t i : ℕ) (l : List ℕ) → label t ≡ some l → i < 512 → t + 8 * i ≡ a0 → length l ≡ length l0
    same_level t i l at lt same =
        let (tables, numbers) = Tree.entries_apart tree t t0 i i0 l l0 at at0 lt lt0 same in
        let labels : some l ≡ some l0 = sym at ∙ ap label tables ∙ at0 in
        let lists : l ≡ l0 = cc in ap length lists

    module _ (goes0 : (mem a0).present ≡ true → ends (suc k0) (mem a0) ≡ false)
        (empty : (i : ℕ) → i < 512 → (mem (child (mem a0) + 8 * i)).present ≡ false) where
      was_none :
          (t k va : ℕ) → k ≡ k0 → t + 8 * index (suc k) va ≡ a0 → walk (suc k) mem t va ≡ none
      was_none t k va level same = elim (Bool-cases (mem a0).present) [
        | inr gone ↦ walk_absent (suc k) mem t va (ap (λ x. (mem x).present) same ∙ gone)
        | inl here ↦
            walk_nowhere k mem t va
              (ap (λ x. ends (suc k) (mem x)) same
                ∙ ap (λ j. ends (suc j) (mem a0)) level
                ∙ goes0 here)
              (empty_table k mem _ va (
                subst (λ x. (i : ℕ) → i < 512 → (mem (child (mem x) + 8 * i)).present ≡ false)
                  (sym same) empty))
      ]

      pub walk_emptied :
          (k t va : ℕ) (l : List ℕ)
          → label t ≡ some l
          → length l + k ≡ 3
          → walk k (update mem a0 e) t va ≡ walk k mem t va
      walk_emptied zero t va l at level = leaf_step mem (update mem a0 e) t va (
          update_other mem a0 _ e (λ same.
            let levels = same_level t (index zero va) l at (index-lt zero va) same in omega arith))
      walk_emptied (suc k) t va l at level =
          let i = index (suc k) va in
          let lt = index-lt (suc k) va in
          elim (Bool-cases (t + 8 * i == a0)) [
            | inl here ↦
                let same : t + 8 * i ≡ a0 = ground arith in
                let levels = same_level t i l at lt same in
                walk_absent (suc k) (update mem a0 e) t va (
                  ap (λ x. (update mem a0 e x).present) same
                  ∙ ap (λ (x : Entry). x.present) (update_self mem a0 e)
                  ∙ absent)
                ∙ sym (was_none t k va (omega arith) same)
            | inr other ↦
                step k mem (update mem a0 e) t va _ refl
                  (update_other mem a0 _ e (λ same. ground arith))
                  (λ here goes.
                    walk_emptied k _ va (i ∷ l) (leads_on t i k l at level lt here goes)
                      (omega arith))
          ]

    -- So no address is mapped otherwise.
    pub emptied :
        (p : ℕ)
        → child (mem a0) ≡ physical_address_to_direct_map p
        → ((mem a0).present ≡ true → ends (suc k0) (mem a0) ≡ false)
        → any_present 512 (physical_address_to_direct_map p) mem ≡ false
        → (va : ℕ) → walk 3 (update mem a0 e) pml4 va ≡ walk 3 mem pml4 va
    emptied p table goes0 unused va =
        walk_emptied goes0
          (subst (λ x. (i : ℕ) → i < 512 → (mem (x + 8 * i)).present ≡ false) (sym table)
            (none_present 512 (physical_address_to_direct_map p) mem unused))
          3 pml4 va [] tree.root refl
