-- ===== src/Paging/Reach.antt =====
-- `get_target_pdpte`, `get_target_pde` and `get_target_pte`, called to create what is missing: they reach the
-- entry of the address, and no walk changes on the way.
use mathlib.Core.Path.{subst}
use methylenix.Base.{
  ℕ, suc, ◌+◌, ◌*◌, ◌≡◌, ◌≢◌, refl, sym, ap, ◌∙◌, Bool, true, false, not, Option, some, List, [],
  ◌∷◌, length, arith, inl, inr, Bool-cases,
}
use methylenix.Memory.Error.{PagingError}
use methylenix.Paging.Entry.{Entry, set_present}
use methylenix.Paging.Entry.Pml4e
use methylenix.Paging.Entry.Pdpte
use methylenix.Paging.Entry.Pde
use methylenix.Paging.Entry.Pte
use methylenix.Paging.State.{
  Memory, State, Result, ok, err, panic, M, when, update, continue_with, allocated,
  alloc_page_table, PhysicalPages, PhysicalPagesLaws, page_size, page_shift,
}
use methylenix.Paging.Target.{create_pdpt, create_pd, create_pt}
use methylenix.Paging.Walk.{index, ends, child, chosen, walk}
use methylenix.Paging.Tree.{Labels, IsTree, TablePath, Follows, index-lt, walk-TablePath}
use methylenix.Paging.Create.{Gives, RanOut, Pdpte-Points, Pde-Points, update_other, update_same}
use methylenix.Paging.Make.{make, Ensured, make-Ensured}

-- Two calls go on from the same result.
Gives-map :
    {S A B : Type 0} (Q R : B → State S → Type 0) (E : PagingError → Type 0) (r : Result S A)
    (f g : A → M S B)
    → ((a : A) (s : State S) → Gives Q E (f a s) → Gives R E (g a s))
    → Gives Q E (continue_with f r)
    → Gives R E (continue_with g r)
Gives-map Q R E (ok a s) f g k h = k a s h
Gives-map Q R E (err e s) f g k h = h
Gives-map Q R E panic f g k h = h

-- The state with an entry made present.
abbrev pub mark : {S : Type 0} → ℕ → State S → State S
mark a u = record u { memory = update u.memory a (set_present true (u.memory a)) }

marked_present : (e : Entry) → e.present ≡ true → set_present true e ≡ e
marked_present e h = ap (λ b. set_present b e) (sym h)

pub mark_same : {S : Type 0} (a : ℕ) (u : State S) → (u.memory a).present ≡ true → mark a u ≡ u
mark_same a u h =
    ap (λ (m : Memory). record u { memory = m })
      (update_same u.memory a _ (sym (marked_present (u.memory a) h)))

-- The address is not in a large page.
abbrev pub NotLarge : Memory → ℕ → ℕ → Type 0
NotLarge mem pml4 va = (k : ℕ) (e : Entry) → walk 3 mem pml4 va ≡ some (k, e) → k ≡ 0

walk_ends :
    (k : ℕ) (mem : Memory) (t va : ℕ)
    → (mem (t + 8 * index (suc k) va)).present ≡ true
    → ends (suc k) (mem (t + 8 * index (suc k) va)) ≡ true
    → walk (suc k) mem t va ≡ some (suc k, mem (t + 8 * index (suc k) va))
unfolding walk
walk_ends k mem t va h g = ends_here _ h g
  where
    ends_here :
        {p e : Bool} {here : Option (ℕ × Entry)} (below : Option (ℕ × Entry))
        → p ≡ true
        → e ≡ true
        → chosen p e here below ≡ here
    ends_here below h g = ground arith

module _ {S : Type 0} (pages : PhysicalPages S) (laws : PhysicalPagesLaws pages) (pml4 va : ℕ) where
  module _ {label : Labels} {u : State S} (tree : IsTree laws.InUse pml4 label u)
      (not_large : NotLarge u.memory pml4 va) (t k : ℕ) (l : List ℕ) (at : label t ≡ some l)
      (level : length l + suc k ≡ 3) (path : TablePath pml4 label u.memory (suc k) t l)
      (follows : Follows va (suc k) l) where
    abbrev i : ℕ
    i = index (suc k) va

    abbrev a : ℕ
    a = t + 8 * i

    goes_on : (u.memory a).present ≡ true → ends (suc k) (u.memory a) ≡ false
    goes_on present = elim (Bool-cases (ends (suc k) (u.memory a))) [
      | inl large ↦
          let found =
            walk-TablePath pml4 label u.memory (suc k) t va l path follows
            ∙ walk_ends k u.memory t va present large in
          absurd (let zero_level = not_large (suc k) (u.memory a) found in omega arith)
      | inr small ↦ small
    ]

    -- The entry leads to a table already.
    old_Ensured :
        (u.memory a).address_set ≡ true → (mark a u ≡ u) × Ensured laws.InUse pml4 u a k (i ∷ l) u
    old_Ensured set =
        let lt = index-lt (suc k) va in
        let (present, leads) = (tree.linked t i k l at level lt).1 set in
        let goes = goes_on present in
        (
          mark_same a u present,
          record {
            labels = label;
            table = child (u.memory a);
            tree = tree;
            at = leads goes;
            path = (t, at, lt, (present, goes, refl), path);
            same = λ va. refl;
            address = set;
            leads = (present, goes, refl);
          },
        )

    -- The entry leads to a table already, or one is made for it.
    pub ensure :
        (b : Bool)
        → (u.memory a).address_set ≡ b
        → (m : M S (Unit {0}))
        → (b ≡ false
            → Gives (λ _. Ensured laws.InUse pml4 u a k (i ∷ l)) (RanOut pages) (m (mark a u)))
        → Gives
            (λ _. Ensured laws.InUse pml4 u a k (i ∷ l))
            (RanOut pages)
            (when (not b) m (mark a u))
    ensure true set m h =
        let (same, old) = old_Ensured set in
        subst (Ensured laws.InUse pml4 u a k (i ∷ l)) (sym same) old
    ensure false set m h = h refl

    -- The entry is marked after the table is made, as `get_target_pdpte` does.
    pub ensure_later :
        (b : Bool)
        → (u.memory a).address_set ≡ b
        → (m : M S (Unit {0}))
        → (b ≡ false
            → Gives
                (λ _ s'. Ensured laws.InUse pml4 u a k (i ∷ l) (mark a s'))
                (RanOut pages)
                (m u))
        → Gives
            (λ _ s'. Ensured laws.InUse pml4 u a k (i ∷ l) (mark a s'))
            (RanOut pages)
            (when (not b) m u)
    ensure_later true set m h =
        let (same, old) = old_Ensured set in
        subst (Ensured laws.InUse pml4 u a k (i ∷ l)) (sym same) old
    ensure_later false set m h = h refl

    others : (x : ℕ) → x ≢ a → (mark a u).memory x ≡ u.memory x
    others x h = update_other u.memory a x _ h

  pub make_pd :
      {label : Labels} {u : State S} (tree : IsTree laws.InUse pml4 label u) (t i3 : ℕ)
      → label t ≡ some (i3 ∷ [])
      → TablePath pml4 label u.memory 2 t (i3 ∷ [])
      → let a = t + 8 * index 2 va in
        (u.memory a).address_set ≡ false
        → Gives
            (λ _. Ensured laws.InUse pml4 u a 1 (index 2 va ∷ i3 ∷ []))
            (RanOut pages)
            (create_pd pages a true true (mark a u))
  unfolding create_pd Pde.init
  make_pd {u = u} tree t i3 at path unset =
      make-Ensured pages laws tree t (index 2 va) 1 (i3 ∷ []) at refl (index-lt 2 va) unset path
        Pde.init Pdpte.init (λ p e. (Pdpte.set_address p e).1) (λ e. (refl, refl)) Pdpte-Points
        (mark (t + 8 * index 2 va) u) (λ x h. update_other u.memory _ x _ h) refl

  pub make_pt :
      {label : Labels} {u : State S} (tree : IsTree laws.InUse pml4 label u) (t i2 i3 : ℕ)
      → label t ≡ some (i2 ∷ i3 ∷ [])
      → TablePath pml4 label u.memory 1 t (i2 ∷ i3 ∷ [])
      → let a = t + 8 * index 1 va in
        (u.memory a).address_set ≡ false
        → Gives
            (λ _. Ensured laws.InUse pml4 u a 0 (index 1 va ∷ i2 ∷ i3 ∷ []))
            (RanOut pages)
            (create_pt pages a true true (mark a u))
  unfolding create_pt Pte.init
  make_pt {u = u} tree t i2 i3 at path unset =
      make-Ensured pages laws tree t (index 1 va) 0 (i2 ∷ i3 ∷ []) at refl (index-lt 1 va) unset
        path Pte.init Pde.init (λ p e. (Pde.set_address p e).1) (λ e. (refl, refl)) Pde-Points
        (mark (t + 8 * index 1 va) u) (λ x h. update_other u.memory _ x _ h) refl

  pub marked_later :
      (P : State S → Type 0) (a : ℕ) (s : State S)
      → Gives
          (λ _. P)
          (RanOut pages)
          (make pages Pdpte.init Pml4e.init (λ p e. (Pml4e.set_address p e).1) a s)
      → Gives (λ _ s'. P (mark a s')) (RanOut pages) (create_pdpt pages a true s)
  unfolding create_pdpt alloc_page_table
  marked_later P a s h =
      Gives-map (λ _. P) (λ _ s'. P (mark a s')) (RanOut pages)
        (allocated s (pages.alloc page_size page_shift s.pm_manager)) _ _ (λ c s1 g. g) h

  -- The entry of the address at level `suc k` is reached, and marked as present.
  pub record Reached (s : State S) (k : ℕ) (l : List ℕ) (a : ℕ) (s' : State S) : Type 0 where
    pub labels : Labels
    pub before : State S
    pub table : ℕ
    pub tree : IsTree laws.InUse pml4 labels before
    pub at : labels table ≡ some l
    pub path : TablePath pml4 labels before.memory (suc k) table l
    pub same : (va : ℕ) → walk 3 before.memory pml4 va ≡ walk 3 s.memory pml4 va
    pub place : a ≡ table + 8 * index (suc k) va
    pub marked : s' ≡ mark a before
