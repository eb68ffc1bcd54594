-- ===== src/Paging/Levels.antt =====
-- `get_target_pdpte`, `get_target_pde` and `get_target_pte`, one after the other.
use mathlib.Core.Path.{subst}
use methylenix.Base.{
  ℕ, ◌+◌, ◌*◌, ◌%◌, ◌≡◌, refl, sym, ap, ◌∙◌, true, false, not, Option, none, some, [], ◌∷◌, arith,
}
use methylenix.Memory.Error.{PagingError}
use methylenix.Paging.Entry.{Entry}
use methylenix.Paging.Entry.Pml4e
use methylenix.Paging.Entry.Pdpte
use methylenix.Paging.Entry.Pde
use methylenix.Paging.State.{
  State, M, when, continue_with, PhysicalPages, PhysicalPagesLaws, physical_address_to_direct_map,
}
use methylenix.Paging.Target.{
  create_pdpt, create_pd, create_pt, get_target_pdpte, get_target_pde, get_target_pte, entry_in,
  number_of_pml4e, number_of_pdpte, number_of_pde, number_of_pte,
}
use methylenix.Paging.Walk.{index, walk}
use methylenix.Paging.Tree.{Labels, IsTree, TablePath, index-lt}
use methylenix.Paging.Create.{Gives, Gives->>=, RanOut, Pml4e-Points, update_self}
use methylenix.Paging.Make.{Ensured, make-Ensured}
use methylenix.Paging.Reach.{
  mark, NotLarge, Reached, ensure, ensure_later, make_pd, make_pt, marked_later,
}

-- A call that goes on from the entry of an address that is set.
pub entry_in->>= :
    {S B : Type 0} (R : B → State S → Type 0) (E : PagingError → Type 0) (o : Option ℕ) (q n : ℕ)
    (s : State S) (f : ℕ → M S B)
    → o ≡ some q
    → Gives R E (f (physical_address_to_direct_map q + 8 * n) s)
    → Gives R E (continue_with f (entry_in o n s))
entry_in->>= R E o q n s f h k = rw h k

pub entry_in_lem :
    {S : Type 0} (R : ℕ → State S → Type 0) (E : PagingError → Type 0) (o : Option ℕ) (q n : ℕ)
    (s : State S)
    → o ≡ some q
    → R (physical_address_to_direct_map q + 8 * n) s
    → Gives R E (entry_in o n s)
entry_in_lem R E o q n s h k = rw h k

pub Pml4e-get_address : (e : Entry) → e.address_set ≡ true → Pml4e.get_address e ≡ some e.address
unfolding Pml4e.get_address Pml4e.is_address_set
Pml4e-get_address e h = ground arith

pub Pdpte-get_address :
    (e : Entry) → e.address_set ≡ true → e.huge ≡ false → Pdpte.get_address e ≡ some e.address
unfolding Pdpte.get_address Pdpte.is_address_set Pdpte.is_huge
Pdpte-get_address e h g = ground arith

pub Pde-get_address :
    (e : Entry) → e.address_set ≡ true → e.huge ≡ false → Pde.get_address e ≡ some e.address
unfolding Pde.get_address Pde.is_address_set Pde.is_huge
Pde-get_address e h g = ground arith

cleared : (e : Entry) → ((Pdpte.init e).present ≡ false) × ((Pdpte.init e).address_set ≡ false)
unfolding Pdpte.init
cleared e = (refl, refl)

module _ {S : Type 0} (pages : PhysicalPages S) (laws : PhysicalPagesLaws pages) (pml4 va : ℕ)
    {label : Labels} (s : State S) (tree : IsTree laws.InUse pml4 label s)
    (not_large : NotLarge s.memory pml4 va) (aligned : va % 4096 ≡ 0) where
  abbrev pml4e : ℕ
  pml4e = pml4 + 8 * index 3 va

  pdpt-Ensured :
      Gives
        (λ _ s'. Ensured laws.InUse pml4 s pml4e 2 (index 3 va ∷ []) (mark pml4e s'))
        (RanOut pages)
        (when (not (s.memory pml4e).address_set) (create_pdpt pages pml4e true) s)
  pdpt-Ensured =
      ensure_later pages laws pml4 va tree not_large pml4 2 [] tree.root refl (refl, refl) tt
        (s.memory pml4e).address_set refl (create_pdpt pages _ true)
        (λ unset. marked_later pages laws pml4 va _ pml4e s (
          make-Ensured pages laws tree pml4 (index 3 va) 2 [] tree.root refl (index-lt 3 va) unset
            (refl, refl) Pdpte.init Pml4e.init (λ p e. (Pml4e.set_address p e).1) cleared
            Pml4e-Points s (λ x h. refl) refl))

  pub get_target_pdpte-Reached :
      Gives
        (Reached pages laws pml4 va s 1 (index 3 va ∷ []))
        (RanOut pages)
        (get_target_pdpte pages pml4 va true true true s)
  unfolding get_target_pdpte number_of_pml4e number_of_pdpte index Pml4e.is_address_set
  get_target_pdpte-Reached = rw aligned (
      Gives->>= {Q = λ _ s1. Ensured laws.InUse pml4 s pml4e 2 (index 3 va ∷ []) (mark pml4e s1)} _
        (RanOut pages) _ _ pdpt-Ensured
        (λ u s1 ensured.
          entry_in->>= _ (RanOut pages) _ _ (index 2 va) (mark pml4e s1) _
            (Pml4e-get_address _ ensured.address)
            record {
              labels = ensured.labels;
              before = mark pml4e s1;
              table = ensured.table;
              tree = ensured.tree;
              at = ensured.at;
              path = ensured.path;
              same = ensured.same;
              place = ap (λ t. t + 8 * index 2 va) (ensured.leads.2);
              marked = refl;
            }))

-- A call with the entry that was reached.
resume :
    {S : Type 0} {a a' : ℕ} (u : State S) {s : State S} (f : Option ℕ → M S ℕ)
    (R : ℕ → State S → Type 0) (E : PagingError → Type 0)
    → Gives R E (f (some a') (mark a' u))
    → a ≡ a'
    → s ≡ mark a u
    → Gives R E (f (some a) s)
resume {a' = a'} u {s = s} f R E h place marked =
    let same = marked ∙ ap (λ x. mark x u) place in
    subst (λ x. Gives R E (f (some x) s)) (sym place)
      (subst (λ x. Gives R E (f (some a') x)) (sym same) h)

-- The entry of the address in a page table is reached.
pub record ReachedPte {S : Type 0} (InUse : S → ℕ → Type 0) (pml4 va : ℕ) (s : State S) (a : ℕ)
    (s' : State S) : Type 0 where
  pub labels : Labels
  pub table : ℕ
  pub tree : IsTree InUse pml4 labels s'
  pub at : labels table ≡ some (index 1 va ∷ index 2 va ∷ index 3 va ∷ [])
  pub path : TablePath pml4 labels s'.memory 0 table (index 1 va ∷ index 2 va ∷ index 3 va ∷ [])
  pub same : (va : ℕ) → walk 3 s'.memory pml4 va ≡ walk 3 s.memory pml4 va
  pub place : a ≡ table + 8 * index 0 va

module _ {S : Type 0} (pages : PhysicalPages S) (laws : PhysicalPagesLaws pages) (pml4 va : ℕ)
    (s : State S) (not_large : NotLarge s.memory pml4 va) where
  still-NotLarge :
      (u : State S)
      → ((va : ℕ) → walk 3 u.memory pml4 va ≡ walk 3 s.memory pml4 va)
      → NotLarge u.memory pml4 va
  still-NotLarge u same k e found = not_large k e (sym (same va) ∙ found)

  mark_address :
      (a : ℕ) (u : State S) → (u.memory a).address_set ≡ ((mark a u).memory a).address_set
  mark_address a u = ap (λ (e : Entry). e.address_set) (sym (update_self u.memory a _))

  known_pdpte :
      {label : Labels} (u : State S) (tree : IsTree laws.InUse pml4 label u) (t : ℕ)
      → label t ≡ some (index 3 va ∷ [])
      → TablePath pml4 label u.memory 2 t (index 3 va ∷ [])
      → ((va : ℕ) → walk 3 u.memory pml4 va ≡ walk 3 s.memory pml4 va)
      → let a = t + 8 * index 2 va in
        Gives
          (Reached pages laws pml4 va s 0 (index 2 va ∷ index 3 va ∷ []))
          (RanOut pages)
          (get_target_pde pages pml4 va true true true (some a) (mark a u))
  unfolding get_target_pde number_of_pde index Pdpte.is_address_set
  known_pdpte u tree t at path same =
      let a = t + 8 * index 2 va in
      Gives->>= {Q = λ _. Ensured laws.InUse pml4 u a 1 (index 2 va ∷ index 3 va ∷ [])} _
        (RanOut pages) _ _
        (ensure pages laws pml4 va tree (still-NotLarge u same) t 1 (index 3 va ∷ []) at refl path
          (refl, tt) _ (mark_address a u) (create_pd pages a true true)
          (λ unset.
            make_pd pages laws pml4 va tree t (index 3 va) at path (mark_address a u ∙ unset)))
        (λ u' s1 ensured.
          entry_in->>= _ (RanOut pages) _ _ (index 1 va) s1 _
            (Pdpte-get_address _ ensured.address (ensured.leads.1))
            record {
              labels = ensured.labels;
              before = s1;
              table = ensured.table;
              tree = ensured.tree;
              at = ensured.at;
              path = ensured.path;
              same = λ va'. ensured.same va' ∙ same va';
              place = ap (λ t. t + 8 * index 1 va) (ensured.leads.2);
              marked = refl;
            })

  known_pde :
      {label : Labels} (u : State S) (tree : IsTree laws.InUse pml4 label u) (t : ℕ)
      → label t ≡ some (index 2 va ∷ index 3 va ∷ [])
      → TablePath pml4 label u.memory 1 t (index 2 va ∷ index 3 va ∷ [])
      → ((va : ℕ) → walk 3 u.memory pml4 va ≡ walk 3 s.memory pml4 va)
      → let a = t + 8 * index 1 va in
        Gives
          (ReachedPte laws.InUse pml4 va s)
          (RanOut pages)
          (get_target_pte pages pml4 va true true (some a) (mark a u))
  unfolding get_target_pte number_of_pte index Pde.is_address_set
  known_pde u tree t at path same =
      let a = t + 8 * index 1 va in
      Gives->>= {Q = λ _. Ensured laws.InUse pml4 u a 0 (index 1 va ∷ index 2 va ∷ index 3 va ∷ [])}
        _ (RanOut pages) _ _
        (ensure pages laws pml4 va tree (still-NotLarge u same) t 0 (index 2 va ∷ index 3 va ∷ [])
          at refl path (refl, (refl, tt)) _ (mark_address a u) (create_pt pages a true true)
          (λ unset.
            make_pt pages laws pml4 va tree t (index 2 va) (index 3 va) at path
              (mark_address a u ∙ unset)))
        (λ u' s1 ensured.
          entry_in_lem (ReachedPte laws.InUse pml4 va s) (RanOut pages) _ _ (index 0 va) s1
            (Pde-get_address _ ensured.address (ensured.leads.1))
            record {
              labels = ensured.labels;
              table = ensured.table;
              tree = ensured.tree;
              at = ensured.at;
              path = ensured.path;
              same = λ va'. ensured.same va' ∙ same va';
              place = ap (λ t. t + 8 * index 0 va) (ensured.leads.2);
            })

  module _ {label : Labels} (tree : IsTree laws.InUse pml4 label s) (aligned : va % 4096 ≡ 0) where
    get_target_pde-Reached :
        Gives
          (Reached pages laws pml4 va s 0 (index 2 va ∷ index 3 va ∷ []))
          (RanOut pages)
          (get_target_pde pages pml4 va true true true none s)
    unfolding get_target_pde
    get_target_pde-Reached =
        Gives->>= {Q = Reached pages laws pml4 va s 1 (index 3 va ∷ [])} _ (RanOut pages) _ _
          (get_target_pdpte-Reached pages laws pml4 va s tree not_large aligned)
          (λ a s1 reached.
            resume reached.before (get_target_pde pages pml4 va true true true) _ _
              (known_pdpte reached.before reached.tree reached.table reached.at reached.path
                reached.same)
              reached.place reached.marked)

    pub get_target_pte-Reached :
        Gives
          (ReachedPte laws.InUse pml4 va s)
          (RanOut pages)
          (get_target_pte pages pml4 va true true none s)
    unfolding get_target_pte
    get_target_pte-Reached =
        Gives->>= {Q = Reached pages laws pml4 va s 0 (index 2 va ∷ index 3 va ∷ [])} _
          (RanOut pages) _ _ get_target_pde-Reached
          (λ a s1 reached.
            resume reached.before (get_target_pte pages pml4 va true true) _ _
              (known_pde reached.before reached.tree reached.table reached.at reached.path
                reached.same)
              reached.place reached.marked)
