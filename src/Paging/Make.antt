-- ===== src/Paging/Make.antt =====
-- The common steps of `create_pdpt`, `create_pd` and `create_pt`: a page is allocated, cleared and
-- linked. Together they add a table to the tree.
use mathlib.Core.Path.{subst}
use methylenix.Base.{
  ℕ, suc, ◌+◌, ◌*◌, ◌%◌, ◌^◌, ◌<◌, ◌≡◌, ◌≢◌, refl, sym, ap, ◌∙◌, true, false, Option, none, some,
  List, [], ◌∷◌, length, arith, Panics, Returns,
}
use methylenix.Paging.Entry.{Entry, set_present}
use methylenix.Paging.State.{
  Memory, State, M, ◌>>=◌, ◌>>◌, modify, update, init_entries, init_table, continue_with, allocated,
  alloc_page_table, NewPage, PhysicalPages, PhysicalPagesLaws, page_size, page_shift,
  direct_map_start_address, physical_address_to_direct_map, direct_map_to_physical_address,
}
use methylenix.Paging.Walk.{ends, walk}
use methylenix.Paging.Tree.{Labels, IsTree, Leads, TablePath}
use methylenix.Paging.Tree.Enter.{
  NewTable, with_label, enter-IsTree, enter-walks, enter-TablePath, new_label,
}
use methylenix.Paging.Create.{
  Gives, RanOut, Points, mapped_lem, back_lem, init_entries_other, init_entries_lem, update_self,
  update_other,
}

abbrev pub make :
    {S : Type 0}
    → PhysicalPages S
    → (Entry → Entry)
    → (Entry → Entry)
    → (ℕ → Entry → Entry)
    → ℕ
    → M S (Unit {0})
make pages init_child init set a = do
  c ← alloc_page_table pages
  init_table init_child c
  modify a init
  modify a (set (direct_map_to_physical_address c))
  modify a (set_present true)

abbrev modified : ℕ → (Entry → Entry) → Memory → Memory
modified a f mem = update mem a (f (mem a))

modified_here : (a : ℕ) (f : Entry → Entry) (mem : Memory) → modified a f mem a ≡ f (mem a)
modified_here a f mem = update_self mem a (f (mem a))

modified_other :
    (a : ℕ) (f : Entry → Entry) (mem : Memory) (x : ℕ) → x ≢ a → modified a f mem x ≡ mem x
modified_other a f mem x h = update_other mem a x (f (mem a)) h

-- Memory after the three writes of the entry.
abbrev written : (Entry → Entry) → (ℕ → Entry → Entry) → ℕ → ℕ → Memory → Memory
written init set a p mem = modified a (set_present true) (modified a (set p) (modified a init mem))

written_here :
    (init : Entry → Entry) (set : ℕ → Entry → Entry) (a p : ℕ) (mem : Memory)
    → written init set a p mem a ≡ set_present true (set p (init (mem a)))
written_here init set a p mem =
    let first = modified a init mem in
    modified_here a (set_present true) (modified a (set p) first)
    ∙ ap (set_present true) (modified_here a (set p) first ∙ ap (set p) (modified_here a init mem))

written_other :
    (init : Entry → Entry) (set : ℕ → Entry → Entry) (a p : ℕ) (mem : Memory) (x : ℕ)
    → x ≢ a
    → written init set a p mem x ≡ mem x
written_other init set a p mem x h =
    let first = modified a init mem in
    modified_other a (set_present true) (modified a (set p) first) x h
    ∙ modified_other a (set p) first x h
    ∙ modified_other a init mem x h

-- The tables of `s'` are those of `u`, perhaps with one more, and the entry at `a` leads to the table with
-- the numbers `l`.
pub record Ensured {S : Type 0} (InUse : S → ℕ → Type 0) (pml4 : ℕ) (u : State S) (a k : ℕ)
    (l : List ℕ) (s' : State S) : Type 0 where
  pub labels : Labels
  pub table : ℕ
  pub tree : IsTree InUse pml4 labels s'
  pub at : labels table ≡ some l
  pub path : TablePath pml4 labels s'.memory k table l
  pub same : (va : ℕ) → walk 3 s'.memory pml4 va ≡ walk 3 u.memory pml4 va
  pub address : (s'.memory a).address_set ≡ true
  pub leads : Leads (suc k) (s'.memory a) table

module _ {S : Type 0} (pages : PhysicalPages S) (laws : PhysicalPagesLaws pages) {pml4 : ℕ}
    {label : Labels} {u : State S} (tree : IsTree laws.InUse pml4 label u) (t i k : ℕ) (l : List ℕ)
    (at : label t ≡ some l) (level : length l + suc k ≡ 3) (lt : i < 512)
    (unset : (u.memory (t + 8 * i)).address_set ≡ false)
    (path : TablePath pml4 label u.memory (suc k) t l) where
  enter-Ensured :
      (s' : State S) (p c : ℕ)
      → NewTable laws.InUse u s' k (t + 8 * i) p c
      → Ensured laws.InUse pml4 u (t + 8 * i) k (i ∷ l) s'
  enter-Ensured s' p c new = record {
    labels = with_label label c (i ∷ l);
    table = c;
    tree = enter-IsTree tree s' t i k p c l at level lt unset new;
    at = new_label tree s' t i k p c l at level lt unset new;
    path = enter-TablePath tree s' t i k p c l at level lt unset new path;
    same = λ va. enter-walks tree s' t i k p c l at level lt unset new 3 pml4 va [] tree.root refl;
    address = new.address;
    leads = new.leads;
  }

  module _ (init_child init : Entry → Entry) (set : ℕ → Entry → Entry)
      (cleared : (e : Entry)
        → ((init_child e).present ≡ false) × ((init_child e).address_set ≡ false))
      (points : (p : ℕ) (e : Entry)
        → p % 4096 ≡ 0
        → p < 2 ^ 45
        → Points (suc k) p (set_present true (set p (init e))))
      (s : State S) (others : (x : ℕ) → x ≢ t + 8 * i → s.memory x ≡ u.memory x) where
    abbrev a : ℕ
    a = t + 8 * i

    fresh_page :
        (p c j : ℕ)
        → ¬ laws.InUse u.pm_manager p
        → c ≡ p + direct_map_start_address
        → p % 4096 ≡ 0
        → p < 2 ^ 45
        → j < 512
        → c + 8 * j ≢ a
    fresh_page p c j unused mapped aligned small ltj same =
        let (q, is, q_aligned, q_small, used) = tree.pages t l at in
        let pages_same : q ≡ p = omega arith in
        unused (subst (λ x. laws.InUse u.pm_manager x) pages_same used)

    made-NewTable :
        (pm : S) (p c : ℕ)
        → NewPage laws.InUse u.pm_manager (some p, pm)
        → c ≡ physical_address_to_direct_map p
        → (s' : State S) → s'.memory ≡ written init set a p (init_entries init_child 512 c s.memory)
        → s'.pm_manager ≡ pm
        → NewTable laws.InUse u s' k a p c
    made-NewTable pm p c (unused, used, aligned, small, keeps) is s' mem same_pm =
        let table = init_entries init_child 512 c s.memory in
        let mapped = is ∙ mapped_lem p small in
        let here : s'.memory a ≡ set_present true (set p (init (table a))) =
          ap (λ m. m a) mem ∙ written_here init set a p table in
        let (set_there, present, goes, address) = points p (table a) aligned small in
        let at_address : (s'.memory a).address ≡ p = ap (λ (e : Entry). e.address) here ∙ address in
        record {
          unused = unused;
          used = subst (λ m. laws.InUse m p) (sym same_pm) used;
          aligned = aligned;
          small = small;
          keeps = λ q h. subst (λ m. laws.InUse m q) (sym same_pm) (keeps q h);
          mapped = mapped;
          address = ap (λ (e : Entry). e.address_set) here ∙ set_there;
          leads = (
            ap (λ (e : Entry). e.present) here ∙ present,
            ap (ends (suc k)) here ∙ goes,
            ap physical_address_to_direct_map at_address ∙ sym is,
          );
          empty = λ j ltj.
              let (e, is_cleared) = init_entries_lem init_child 512 c s.memory j ltj in
              let kept : s'.memory (c + 8 * j) ≡ init_child e =
                ap (λ m. m (c + 8 * j)) mem
                ∙ written_other init set a p table (c + 8 * j)
                    (fresh_page p c j unused mapped aligned small ltj)
                ∙ is_cleared in
              let (absent, no_address) = cleared e in
              (
                ap (λ (e : Entry). e.present) kept ∙ absent,
                ap (λ (e : Entry). e.address_set) kept ∙ no_address,
              );
          others = λ x beside inside.
              ap (λ m. m x) mem
              ∙ written_other init set a p table x beside
              ∙ init_entries_other init_child 512 c s.memory x inside
              ∙ others x beside;
        }

    rest : ℕ → M S (Unit {0})
    rest c = do
      init_table init_child c
      modify a init
      modify a (set (direct_map_to_physical_address c))
      modify a (set_present true)

    allocated-Ensured :
        (r : Panics (Option ℕ × S))
        → pages.alloc page_size page_shift s.pm_manager ≡ r
        → Returns (NewPage laws.InUse u.pm_manager) r
        → Gives
            (λ _. Ensured laws.InUse pml4 u a k (i ∷ l))
            (RanOut pages)
            (continue_with rest (allocated s r))
    unfolding rest
    allocated-Ensured none is h = absurd h
    allocated-Ensured (some (none, pm)) is h = (refl, s.pm_manager, pm, is)
    allocated-Ensured (some (some p, pm)) is h =
        let c = physical_address_to_direct_map p in
        enter-Ensured _ p c (
          made-NewTable pm p c h refl _
            (ap (λ q. written init set a q (init_entries init_child 512 c s.memory))
              (back_lem p (h.3)))
            refl)

    pub make-Ensured :
        s.pm_manager ≡ u.pm_manager
        → Gives
            (λ _. Ensured laws.InUse pml4 u a k (i ∷ l))
            (RanOut pages)
            (make pages init_child init set a s)
    unfolding rest alloc_page_table
    make-Ensured same = allocated-Ensured (pages.alloc page_size page_shift s.pm_manager) refl (
        subst (λ m. Returns (NewPage laws.InUse m) (pages.alloc page_size page_shift s.pm_manager))
          same (laws.alloc-NewPage s.pm_manager))
