-- ===== src/Paging/Tree/Enter.antt =====
-- A table is made for an entry that has none: the tree grows by it, and no walk changes.
use mathlib.Core.Path.{subst}
use methylenix.Base.{
  ℕ, zero, suc, ◌+◌, ◌*◌, ◌%◌, ◌^◌, ◌<◌, ◌≡◌, ◌≢◌, sym, ap, ◌∙◌, ◌⊎◌, inl, inr, Bool, true, false,
  Bool-cases, none, some, List, [], ◌∷◌, length, arith, ◌==◌, ==_ne, if◌then◌else◌,
}
use methylenix.Paging.Entry.{Entry}
use methylenix.Paging.State.{State, direct_map_start_address}
use methylenix.Paging.Walk.{ends, child, walk}
use methylenix.Paging.Tree
use methylenix.Paging.Tree.{Labels, IsTree, IsLinked, IsTableAt, Leads, TablePath}
use methylenix.Paging.Tree.Kept.{empty_table, walks_kept, TablePath-kept}

-- `s'` is `s` with the new page `p`, made an empty table at `c`, in the entry at `hole`.
pub record NewTable {S : Type 0} (InUse : S → ℕ → Type 0) (s s' : State S) (k hole p c : ℕ)
    : Type 0 where
  pub unused : ¬ InUse s.pm_manager p
  pub used : InUse s'.pm_manager p
  pub aligned : p % 4096 ≡ 0
  pub small : p < 2 ^ 45
  pub keeps : (q : ℕ) → InUse s.pm_manager q → InUse s'.pm_manager q
  pub mapped : c ≡ p + direct_map_start_address
  pub address : (s'.memory hole).address_set ≡ true
  pub leads : Leads (suc k) (s'.memory hole) c
  pub empty :
      (j : ℕ)
      → j < 512
      → ((s'.memory (c + 8 * j)).present ≡ false) × ((s'.memory (c + 8 * j)).address_set ≡ false)
  pub others : (x : ℕ) → x ≢ hole → ((j : ℕ) → j < 512 → x ≢ c + 8 * j) → s'.memory x ≡ s.memory x

abbrev pub with_label : Labels → ℕ → List ℕ → Labels
with_label label c l x = if x == c then some l else label x

pub not_both : {b : Bool} → b ≡ true → b ≡ false → ⊥
not_both h g = ground arith

absent-IsLinked :
    (label : Labels) (k i : ℕ) (l : List ℕ) (e : Entry)
    → e.present ≡ false
    → e.address_set ≡ false
    → IsLinked label k i l e
absent-IsLinked label k i l e h g = (λ p. absurd (not_both p h), λ p. absurd (not_both p g))

module _ {S : Type 0} {InUse : S → ℕ → Type 0} {pml4 : ℕ} {label : Labels} {s : State S}
    (tree : IsTree InUse pml4 label s) (s' : State S) (t i k p c : ℕ) (l : List ℕ)
    (at : label t ≡ some l) (level : length l + suc k ≡ 3) (lt : i < 512)
    (unset : (s.memory (t + 8 * i)).address_set ≡ false)
    (new : NewTable InUse s s' k (t + 8 * i) p c) where
  abbrev labels : Labels
  labels = with_label label c (i ∷ l)

  -- The page of the new table is that of no other.
  apart : (t' : ℕ) (l' : List ℕ) → label t' ≡ some l' → t' ≢ c
  apart t' l' at' same =
      let (q, is, aligned, small, used) = tree.pages t' l' at' in
      let mapped = new.mapped in
      let pages : q ≡ p = omega arith in new.unused (subst (λ x. InUse s.pm_manager x) pages used)

  kept_label : (t' : ℕ) (l' : List ℕ) → label t' ≡ some l' → labels t' ≡ some l'
  kept_label t' l' at' = rw (==_ne t' c (apart t' l' at')) at'

  pub new_label : labels c ≡ some (i ∷ l)
  new_label = ground arith

  label_cases :
      (t' : ℕ) (l' : List ℕ)
      → labels t' ≡ some l'
      → ((t' ≡ c) × (l' ≡ i ∷ l)) ⊎ (label t' ≡ some l')
  label_cases t' l' at' = elim (Bool-cases (t' == c)) [
    | inl same ↦
        let found : some (i ∷ l) ≡ some l' = rw same at at' in
        let numbers : l' ≡ i ∷ l = cc in inl (ground arith, numbers)
    | inr other ↦ inr (rw other at at')
  ]

  pub outside :
      (t' j n : ℕ) (l' : List ℕ) → label t' ≡ some l' → j < 512 → n < 512 → t' + 8 * j ≢ c + 8 * n
  outside t' j n l' at' lt' ltn same =
      let (q, is, aligned, small, used) = tree.pages t' l' at' in
      let mapped = new.mapped in
      let aligned' = new.aligned in let small' = new.small in apart t' l' at' (omega arith)

  -- An entry of the tree is the one that was written, or as it was.
  entry_cases :
      (t' j k' : ℕ) (l' : List ℕ)
      → label t' ≡ some l'
      → length l' + k' ≡ 3
      → j < 512
      → ((t' ≡ t) × (j ≡ i) × (l' ≡ l) × (k' ≡ suc k))
        ⊎ (s'.memory (t' + 8 * j) ≡ s.memory (t' + 8 * j))
  entry_cases t' j k' l' at' level' lt' = elim (Bool-cases (t' + 8 * j == t + 8 * i)) [
    | inl same ↦
        let (tables, numbers) =
          Tree.entries_apart tree t' t j i l' l at' at lt' lt (ground arith) in
        let both : some l' ≡ some l = sym at' ∙ ap label tables ∙ at in
        let lists : l' ≡ l = cc in
        let lengths : length l' ≡ length l = ap length lists in
        inl (tables, numbers, lists, omega arith)
    | inr other ↦
        inr (new.others (t' + 8 * j) (ground arith) (λ n ltn. outside t' j n l' at' lt' ltn))
  ]

  hole-IsLinked : IsLinked labels k i l (s'.memory (t + 8 * i))
  hole-IsLinked =
      let (present, goes, to) = new.leads in
      (λ h. new.address, λ h. (present, λ g. ap labels to ∙ new_label))

  kept-IsLinked :
      (j k' : ℕ) (l' : List ℕ) (e : Entry) → IsLinked label k' j l' e → IsLinked labels k' j l' e
  kept-IsLinked j k' l' e (set, leads) = (
    set,
    λ h. let (present, to) = leads h in (present, λ g. kept_label (child e) (j ∷ l') (to g)),
  )

  pub enter-IsTree : IsTree InUse pml4 labels s'
  enter-IsTree = record {
    root = kept_label pml4 [] tree.root;
    pages = λ t' l' at'. elim (label_cases t' l' at') [
      | inl (same, numbers) ↦ (p, same ∙ new.mapped, new.aligned, new.small, new.used)
      | inr old ↦
          let (q, is, aligned, small, used) = tree.pages t' l' old in
          (q, is, aligned, small, new.keeps q used)
    ];
    linked = λ t' j k' l' at' level' lt'. elim (label_cases t' l' at') [
      | inl (same, numbers) ↦
          let (absent, unset') = new.empty j lt' in
          subst (λ x. IsLinked labels k' j l' (s'.memory (x + 8 * j))) (sym same)
            (absent-IsLinked labels k' j l' _ absent unset')
      | inr old ↦ elim (entry_cases t' j (suc k') l' old level' lt') [
        | inl (tables, number, lists, levels) ↦
            let lower : k' ≡ k = omega arith in rw (tables, number, lists, lower) hole-IsLinked
        | inr same ↦
            subst (IsLinked labels k' j l') (sym same)
              (kept-IsLinked j k' l' _ (tree.linked t' j k' l' old level' lt'))
      ]
    ];
  }

  hole_kept :
      ((s.memory (t + 8 * i)).present ≡ false)
      × (ends (suc k) (s'.memory (t + 8 * i)) ≡ false)
      × ((va : ℕ) → walk k s'.memory (child (s'.memory (t + 8 * i))) va ≡ none)
  hole_kept =
      let (present, goes, to) = new.leads in
      let set = (tree.linked t i k l at level lt).0 in
      let absent : (s.memory (t + 8 * i)).present ≡ false =
        (elim (Bool-cases (s.memory (t + 8 * i)).present) [
          | inl here ↦ absurd (not_both (set here) unset)
          | inr none_here ↦ none_here
        ]) in
      (
        absent,
        goes,
        λ va.
            ap (λ x. walk k s'.memory x va) to
            ∙ empty_table k s'.memory c va (λ j ltj. (new.empty j ltj).0),
      )

  pub enter-walks :
      (k' t' va : ℕ) (l' : List ℕ)
      → label t' ≡ some l'
      → length l' + k' ≡ 3
      → walk k' s'.memory t' va ≡ walk k' s.memory t' va
  enter-walks =
      walks_kept tree s'.memory
        (λ t' j k' l' at' level' lt'. elim (entry_cases t' j (suc k') l' at' level' lt') [
          | inl (tables, number, lists, levels) ↦
              let lower : k' ≡ k = omega arith in rw (tables, number, lower) (inr hole_kept)
          | inr same ↦ inl same
        ])
        (λ t' j l' at' full lt'. elim (entry_cases t' j zero l' at' (omega arith) lt') [
          | inl (tables, number, lists, levels) ↦ absurd (omega arith)
          | inr same ↦ same
        ])

  pub enter-TablePath :
      TablePath pml4 label s.memory (suc k) t l → TablePath pml4 labels s'.memory k c (i ∷ l)
  enter-TablePath path = (
    t,
    kept_label t l at,
    lt,
    new.leads,
    TablePath-kept pml4 (length l) label labels s.memory s'.memory
        (λ q j m at' shorter ltj. (
          new.others (q + 8 * j)
              (Tree.lengths_apart tree q t j i m l at' at ltj lt (λ same. omega arith))
              (λ n ltn. outside q j n m at' ltj ltn),
          kept_label q m at',
        ))
        (suc k) t l (omega arith) path,
  )
