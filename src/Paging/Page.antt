-- ===== src/Paging/Page.antt =====
-- The page that an entry maps: an entry that becomes absent changes the walks of its addresses only.
use mathlib.Core.Path.{subst}
use methylenix.Base.{
  ℕ, zero, suc, ◌+◌, ◌*◌, ◌/◌, ◌%◌, ◌^◌, ◌<◌, ◌≡◌, refl, sym, ap, ◌∙◌, ◌⊎◌, Bool-cases, inl, inr,
  some, List, [], ◌∷◌, length, get_or, arith, ◌==◌,
}
use methylenix.Paging.Entry.{Entry}
use methylenix.Paging.State.{Memory, State, update}
use methylenix.Paging.Walk.{index, ends, child, walk}
use methylenix.Paging.Tree
use methylenix.Paging.Tree.{Labels, IsTree, index-lt}
use methylenix.Paging.Tree.Kept.{step, leaf_step}
use methylenix.Paging.Create.{update_other}
use methylenix.Paging.Lookup.{OnPath}
use methylenix.Paging.Emptied.{leads_on}

-- Two addresses, of which 48 bits count, are in one page of level `n`: of 4 KiB, 2 MiB or 1 GiB.
abbrev pub InPage : ℕ → ℕ → ℕ → Type 0
InPage zero va va' = va / 2 ^ 12 % 2 ^ 36 ≡ va' / 2 ^ 12 % 2 ^ 36
InPage (suc zero) va va' = va / 2 ^ 21 % 2 ^ 27 ≡ va' / 2 ^ 21 % 2 ^ 27
InPage (suc (suc zero)) va va' = va / 2 ^ 30 % 2 ^ 18 ≡ va' / 2 ^ 30 % 2 ^ 18
InPage (suc (suc (suc n))) va va' = va / 2 ^ 39 % 2 ^ 9 ≡ va' / 2 ^ 39 % 2 ^ 9

-- The numbers that lead to the table of level `n` of an address.
abbrev trail : ℕ → ℕ → List ℕ
trail zero va = index 1 va ∷ index 2 va ∷ index 3 va ∷ []
trail (suc zero) va = index 2 va ∷ index 3 va ∷ []
trail (suc (suc zero)) va = index 3 va ∷ []
trail (suc (suc (suc n))) va = []

length-trail : (n va : ℕ) → n < 4 → length (trail n va) + n ≡ 3
length-trail zero va lt = refl
length-trail (suc zero) va lt = refl
length-trail (suc (suc zero)) va lt = refl
length-trail (suc (suc (suc n))) va lt = omega arith

same_trail :
    (n va va' : ℕ) → n < 4 → trail n va ≡ trail n va' → index n va ≡ index n va' → InPage n va va'
unfolding index
same_trail zero va va' lt h last =
    let number = λ (k : ℕ). ap (λ l. get_or l k 0) h in omega (arith, number 0, number 1, number 2)
same_trail (suc zero) va va' lt h last =
    let number = λ (k : ℕ). ap (λ l. get_or l k 0) h in omega (arith, number 0, number 1)
same_trail (suc (suc zero)) va va' lt h last =
    let number = λ (k : ℕ). ap (λ l. get_or l k 0) h in omega (arith, number 0)
same_trail (suc (suc (suc n))) va va' lt h last = omega arith

in_page :
    (n n' va va' : ℕ)
    → n < 4
    → n' < 4
    → trail n va ≡ trail n' va'
    → index n va ≡ index n' va'
    → InPage n va va'
in_page n n' va va' lt lt' trails numbers =
    let lengths = ap length trails in
    let same : n' ≡ n = omega (arith, length-trail n va lt, length-trail n' va' lt') in
    same_trail n va va' lt (trails ∙ ap (λ j. trail j va') same)
      (numbers ∙ ap (λ j. index j va') same)

-- The walk does not come to the entry, or it reads the entry at some level.
pub walk_or_hit :
    (k : ℕ) (mem : Memory) (t va a : ℕ) (e : Entry)
    → (walk k (update mem a e) t va ≡ walk k mem t va) ⊎ ((n : ℕ) × OnPath n k mem t va a)
walk_or_hit zero mem t va a e = elim (Bool-cases (t + 8 * index zero va == a)) [
  | inl here ↦ inr (zero, (refl, ground arith))
  | inr other ↦
      inl (leaf_step mem (update mem a e) t va (update_other mem a _ e (λ same. ground arith)))
]
walk_or_hit (suc k) mem t va a e =
    let place : ℕ = t + 8 * index (suc k) va in
    elim (Bool-cases (place == a)) [
      | inl here ↦ inr (suc k, inl (refl, ground arith))
      | inr other ↦
          let same : update mem a e place ≡ mem place =
            update_other mem a _ e (λ same. ground arith) in
          elim (Bool-cases (mem place).present) [
            | inr gone ↦
                inl (step k mem (update mem a e) t va _ refl same (λ here goes. absurd (cc)))
            | inl here ↦ elim (Bool-cases (ends (suc k) (mem place))) [
              | inl large ↦
                  inl (step k mem (update mem a e) t va _ refl same (λ here goes. absurd (cc)))
              | inr goes ↦ elim (walk_or_hit k mem (child (mem place)) va a e) [
                | inl kept ↦ inl (step k mem (update mem a e) t va _ refl same (λ here goes. kept))
                | inr (n, on) ↦ inr (n, inr (here, goes, on))
              ]
            ]
          ]
    ]

module _ {S : Type 0} {InUse : S → ℕ → Type 0} {pml4 : ℕ} {label : Labels} {s : State S}
    (tree : IsTree InUse pml4 label s) where
  -- The entry at `a` is that of an address in a table of level `n`.
  abbrev IsEntryOf : ℕ → ℕ → ℕ → Type 0
  IsEntryOf n va a = (t : ℕ) × (label t ≡ some (trail n va)) × (t + 8 * index n va ≡ a) × (n < 4)

  entry_of : (n va a : ℕ) → OnPath n 3 s.memory pml4 va a → IsEntryOf n va a
  entry_of n va a (inl (level, at)) =
      subst (λ j. IsEntryOf j va a) (sym level) (pml4, tree.root, at, omega arith)
  entry_of n va a (inr (here, goes, on)) =
      let first =
        leads_on tree s.memory (λ x. inl refl) pml4 (index 3 va) 2 [] tree.root refl (index-lt 3 va)
          here goes in
      elim on [
        | inl (level, at) ↦ subst (λ j. IsEntryOf j va a) (sym level) (_, first, at, omega arith)
        | inr (here', goes', on') ↦
            let second =
              leads_on tree s.memory (λ x. inl refl) _ (index 2 va) 1 _ first refl (index-lt 2 va)
                here' goes' in
            elim on' [
              | inl (level, at) ↦
                  subst (λ j. IsEntryOf j va a) (sym level) (_, second, at, omega arith)
              | inr (here'', goes'', (level, at)) ↦
                  let third =
                    leads_on tree s.memory (λ x. inl refl) _ (index 1 va) 0 _ second refl
                      (index-lt 1 va) here'' goes'' in
                  subst (λ j. IsEntryOf j va a) (sym level) (_, third, at, omega arith)
            ]
      ]

  -- Two addresses whose walks read one entry are in one page.
  pub one_page :
      (n n' va va' a : ℕ)
      → OnPath n 3 s.memory pml4 va a
      → OnPath n' 3 s.memory pml4 va' a
      → InPage n va va'
  one_page n n' va va' a on on' =
      let (t, at, place, lt) = entry_of n va a on in
      let (t', at', place', lt') = entry_of n' va' a on' in
      let (tables, numbers) =
        Tree.entries_apart tree t t' (index n va) (index n' va') _ _ at at' (index-lt n va)
          (index-lt n' va') (place ∙ sym place') in
      let labels : some (trail n va) ≡ some (trail n' va') = sym at ∙ ap label tables ∙ at' in
      in_page n n' va va' lt lt' (cc) numbers
