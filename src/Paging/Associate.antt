-- ===== src/Paging/Associate.antt =====
-- `associate_address`: what the processor finds before and after.
use mathlib.Core.Path.{subst}
use methylenix.Base.{
  ℕ, ◌+◌, ◌*◌, ◌/◌, ◌%◌, ◌^◌, ◌<◌, ◌≡◌, ◌≢◌, refl, sym, ap, ◌∙◌, true, false, not, none, some, List,
  [], ◌∷◌, length, get_or, arith,
}
use methylenix.Memory.Permission.{is_writable, is_executable, is_user_accessible}
use methylenix.Paging.Entry.{Entry, no_flags, masked}
use methylenix.Paging.Entry.Pte
use methylenix.Paging.State.{State, update, PhysicalPages, PhysicalPagesLaws}
use methylenix.Paging.Manager.{PageManager, page_entry, is_not_canonical, associate_address}
use methylenix.Paging.Walk.{index, chosen, walk, target, translate}
use methylenix.Paging.Tree
use methylenix.Paging.Tree.{Labels, IsTree, IsLinked, TablePath, Follows, index-lt, walk-TablePath}
use methylenix.Paging.Tree.Kept.{TablePath-kept, walks_beside, leaf_of}
use methylenix.Paging.Create.{Gives, Gives->>=, RanOut, update_self, update_other, or_zero}
use methylenix.Paging.Reach.{NotLarge}
use methylenix.Paging.Levels.{ReachedPte, get_target_pte-Reached}

-- The number of the page of an address, of which 48 bits count.
abbrev pub page_of : ℕ → ℕ
page_of va = va / 2 ^ 12 % 2 ^ 36

-- The entry that maps a page to `pa`.
abbrev pub mapping : ℕ → ℕ → Entry
mapping pa permission = record no_flags {
  present = true;
  address = pa;
  writable = is_writable permission;
  user_accessible = is_user_accessible permission;
  no_execute = not (is_executable permission);
}

-- The page of `va` is mapped to `pa`, the processor finds the entry of every other page as before, and the
-- tables form a tree.
pub record Associated {S : Type 0} (InUse : S → ℕ → Type 0) (pml4 pa va permission : ℕ)
    (s s' : State S) : Type 0 where
  pub labels : Labels
  pub tree : IsTree InUse pml4 labels s'
  pub here :
      (va' : ℕ)
      → page_of va' ≡ page_of va
      → translate s'.memory pml4 va' ≡ some (pa + va' % 2 ^ 12, mapping pa permission)
  pub elsewhere :
      (va' : ℕ) → page_of va' ≢ page_of va → walk 3 s'.memory pml4 va' ≡ walk 3 s.memory pml4 va'

-- The numbers that lead to the page table of an address.
abbrev numbers : ℕ → List ℕ
numbers va = index 1 va ∷ index 2 va ∷ index 3 va ∷ []

masked_address : (pa : ℕ) → pa % 4096 ≡ 0 → pa < 2 ^ 52 → masked 12 pa ≡ pa
masked_address pa aligned small = omega arith

page_entry_lem :
    (pa permission : ℕ) (e : Entry)
    → pa % 4096 ≡ 0
    → pa < 2 ^ 52
    → page_entry pa permission e ≡ mapping pa permission
unfolding Pte.set_address Pte.init
page_entry_lem pa permission e aligned small = rw aligned (
    ap (λ a. record (mapping pa permission) { address = a })
      (or_zero (masked 12 pa) ∙ masked_address pa aligned small))

same_numbers :
    (va va' : ℕ)
    → page_of va' ≡ page_of va
    → (index 0 va ≡ index 0 va')
      × (index 1 va ≡ index 1 va')
      × (index 2 va ≡ index 2 va')
      × (index 3 va ≡ index 3 va')
unfolding index
same_numbers va va' h = (omega arith, omega arith, omega arith, omega arith)

same_page :
    (va va' : ℕ)
    → index 0 va' ≡ index 0 va
    → index 1 va' ≡ index 1 va
    → index 2 va' ≡ index 2 va
    → index 3 va' ≡ index 3 va
    → page_of va' ≡ page_of va
unfolding index
same_page va va' h0 h1 h2 h3 = omega arith

other_leaf :
    (va va' : ℕ)
    → page_of va' ≢ page_of va
    → leaf_of va' 3 [] ≢ index 0 va ∷ index 1 va ∷ index 2 va ∷ index 3 va ∷ []
other_leaf va va' other same =
    let number : (k : ℕ) → get_or (leaf_of va' 3 []) k 0 ≡ get_or (leaf_of va 3 []) k 0 =
      λ k. ap (λ l. get_or l k 0) same in
    other (same_page va va' (number 0) (number 1) (number 2) (number 3))

module _ {S : Type 0} (pages : PhysicalPages S) (laws : PhysicalPagesLaws pages) (m : PageManager)
    (pa va permission : ℕ) (s : State S) where
  -- The leaf of the address is written.
  module _ (a : ℕ) (s1 : State S) (r : ReachedPte laws.InUse m.pml4 va s a s1) (e : Entry) where
    abbrev s2 : State S
    s2 = record s1 { memory = update s1.memory a e }

    lt : index 0 va < 512
    lt = index-lt 0 va

    upper :
        (t j : ℕ) (l : List ℕ)
        → r.labels t ≡ some l
        → length l < 3
        → j < 512
        → (s2.memory (t + 8 * j) ≡ s1.memory (t + 8 * j)) × (r.labels t ≡ some l)
    upper t j l at shorter ltj = (
      update_other s1.memory a _ e (λ same.
          Tree.lengths_apart r.tree t r.table j (index 0 va) l (numbers va) at r.at ltj lt
            (λ h. omega arith) (same ∙ r.place)),
      at,
    )

    written-IsTree : IsTree laws.InUse m.pml4 r.labels s2
    written-IsTree = record {
      root = r.tree.root;
      pages = r.tree.pages;
      linked = λ t i k l at level lt.
          subst (IsLinked r.labels k i l) (sym ((upper t i l at (omega arith) lt).0))
            (r.tree.linked t i k l at level lt);
    }

    written-TablePath : TablePath m.pml4 r.labels s2.memory 0 r.table (numbers va)
    written-TablePath =
        TablePath-kept m.pml4 3 r.labels r.labels s1.memory s2.memory upper 0 r.table (numbers va)
          (omega arith) r.path

    here :
        (va' : ℕ)
        → page_of va' ≡ page_of va
        → walk 3 s2.memory m.pml4 va' ≡ walk 0 s2.memory r.table va'
    here va' same =
        let (n0, n1, n2, n3) = same_numbers va va' same in
        walk-TablePath m.pml4 r.labels s2.memory 0 r.table va' (numbers va) written-TablePath
          (n1, (n2, (n3, tt)))

    elsewhere :
        (va' : ℕ)
        → page_of va' ≢ page_of va
        → walk 3 s2.memory m.pml4 va' ≡ walk 3 s.memory m.pml4 va'
    elsewhere va' other =
        walks_beside r.tree s2.memory r.table (index 0 va) (numbers va) r.at refl lt
          (λ x beside. update_other s1.memory a x e (λ same. beside (same ∙ r.place))) 3 m.pml4 va'
          [] r.tree.root refl (other_leaf va va' other)
        ∙ r.same va'

    found :
        (va' : ℕ)
        → page_of va' ≡ page_of va
        → e ≡ mapping pa permission
        → walk 3 s2.memory m.pml4 va' ≡ some (0, mapping pa permission)
    unfolding walk
    found va' same is =
        let (n0, n1, n2, n3) = same_numbers va va' same in
        let place : r.table + 8 * index 0 va' ≡ a =
          ap (λ i. r.table + 8 * i) (sym n0) ∙ sym r.place in
        here va' same
        ∙ ap (λ (x : Entry). chosen x.present true (some (0, x)) none)
            (ap s2.memory place ∙ update_self s1.memory a e ∙ is)

  -- For aligned addresses, of which the physical one is below 2 ^ 52 and the other passes the test and is not in a
  -- large page, `associate_address`
  -- does not panic, and fails only where the physical memory manager has no page left for a table.
  -- Otherwise the processor translates every address of the page to the one beside `physical_address`, with
  -- the permission asked for, and finds the entry of every other page as before; and the tables form a tree.
  pub associate_address-Associated :
      {label : Labels}
      → IsTree laws.InUse m.pml4 label s
      → NotLarge s.memory m.pml4 va
      → pa % 4096 ≡ 0
      → pa < 2 ^ 52
      → va % 4096 ≡ 0
      → is_not_canonical va ≡ false
      → Gives
          (λ _. Associated laws.InUse m.pml4 pa va permission s)
          (RanOut pages)
          (associate_address pages m pa va permission s)
  unfolding associate_address translate
  associate_address-Associated tree not_large aligned_pa small aligned canonical =
      rw (aligned_pa, aligned, canonical)
        (Gives->>= {Q = ReachedPte laws.InUse m.pml4 va s} _ (RanOut pages) _ _
          (get_target_pte-Reached pages laws m.pml4 va s not_large tree aligned)
          (λ a s1 r.
            let e = page_entry pa permission (s1.memory a) in
            let is = page_entry_lem pa permission (s1.memory a) aligned_pa small in
            record {
              labels = r.labels;
              tree = written-IsTree a s1 r e;
              here = λ va' same.
                  ap (target va') (found a s1 r e va' same is)
                  ∙ ap (λ p. some (p + va' % 2 ^ 12, mapping pa permission))
                      (masked_address pa aligned_pa small);
              elsewhere = λ va' other. elsewhere a s1 r e va' other;
            }))
