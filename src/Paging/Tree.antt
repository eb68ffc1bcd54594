-- ===== src/Paging/Tree.antt =====
-- The invariant of the page tables: they form a tree, each table with the numbers of the entries that lead
-- to it, the last one first.
pub mod Kept
pub mod Enter
use mathlib.Core.Path.{subst}
use methylenix.Base.{
  ℕ, zero, suc, ◌+◌, ◌-◌, ◌*◌, ◌/◌, ◌%◌, ◌^◌, ◌<◌, ◌≡◌, ◌≢◌, refl, sym, ap, ◌∙◌, Bool, true, false,
  Option, none, some, List, [], ◌∷◌, length, arith, ◌==◌, if◌then◌else◌,
}
use methylenix.Paging.Entry.{Entry}
use methylenix.Paging.State.{Memory, State, direct_map_start_address}
use methylenix.Paging.Walk.{index, ends, child, chosen, walk}

-- The numbers that lead to a table, where the address is one.
abbrev pub Labels : Type 0
Labels = ℕ → Option (List ℕ)

-- An entry of the table with the numbers `l`, at level `suc k`. It is present where it has an address; then
-- it maps a large page, or it leads to the table of its numbers.
abbrev pub IsLinked : Labels → ℕ → ℕ → List ℕ → Entry → Type 0
IsLinked label k i l e =
    (e.present ≡ true → e.address_set ≡ true)
    × (e.address_set ≡ true
        → (e.present ≡ true) × (ends (suc k) e ≡ false → label (child e) ≡ some (i ∷ l)))

abbrev pub IsTableAt : {S : Type 0} → (S → ℕ → Type 0) → S → ℕ → Type 0
IsTableAt InUse pm t =
    (p : ℕ) × (t ≡ p + direct_map_start_address) × (p % 4096 ≡ 0) × (p < 2 ^ 45) × InUse pm p

pub record IsTree {S : Type 0} (InUse : S → ℕ → Type 0) (pml4 : ℕ) (label : Labels) (s : State S)
    : Type 0 where
  pub root : label pml4 ≡ some []
  pub pages : (t : ℕ) (l : List ℕ) → label t ≡ some l → IsTableAt InUse s.pm_manager t
  pub linked :
      (t i k : ℕ) (l : List ℕ)
      → label t ≡ some l
      → length l + suc k ≡ 3
      → i < 512
      → IsLinked label k i l (s.memory (t + 8 * i))

-- An entry that leads to the table at `t`.
abbrev pub Leads : ℕ → Entry → ℕ → Type 0
Leads k e t = (e.present ≡ true) × (ends k e ≡ false) × (child e ≡ t)

-- The entries with the numbers `l` lead from the page map to the table at `t`, of level `k`.
abbrev pub TablePath : ℕ → Labels → Memory → ℕ → ℕ → List ℕ → Type 0
TablePath pml4 label mem k t [] = (k ≡ 3) × (t ≡ pml4)
TablePath pml4 label mem k t' (i ∷ l) =
    (t : ℕ) × (label t ≡ some l)
    × (i < 512)
    × Leads (suc k) (mem (t + 8 * i)) t'
    × TablePath pml4 label mem (suc k) t l

-- The numbers `l` are those of the address.
abbrev pub Follows : ℕ → ℕ → List ℕ → Type 0
Follows va k [] = Unit
Follows va k (i ∷ l) = (i ≡ index (suc k) va) × Follows va (suc k) l

pub index-lt : (k va : ℕ) → index k va < 512
unfolding index
index-lt zero va = omega arith
index-lt (suc zero) va = omega arith
index-lt (suc (suc zero)) va = omega arith
index-lt (suc (suc (suc k))) va = omega arith

pub chosen_below :
    {p e : Bool} (here : Option (ℕ × Entry)) {below : Option (ℕ × Entry)}
    → p ≡ true
    → e ≡ false
    → chosen p e here below ≡ below
chosen_below here h g = ground arith

pub chosen_absent :
    {p : Bool} (e : Bool) (here below : Option (ℕ × Entry))
    → p ≡ false
    → chosen p e here below ≡ none
chosen_absent e here below h = ground arith

pub walk-Leads :
    (k : ℕ) (mem : Memory) (t t' va : ℕ)
    → Leads (suc k) (mem (t + 8 * index (suc k) va)) t'
    → walk (suc k) mem t va ≡ walk k mem t' va
unfolding walk
walk-Leads k mem t t' va (present, goes, to) =
    chosen_below _ present goes ∙ ap (λ x. walk k mem x va) to

pub walk-TablePath :
    (pml4 : ℕ) (label : Labels) (mem : Memory) (k t va : ℕ) (l : List ℕ)
    → TablePath pml4 label mem k t l
    → Follows va k l
    → walk 3 mem pml4 va ≡ walk k mem t va
walk-TablePath pml4 label mem k t va [] (level, root) f = rw (level, root)
walk-TablePath pml4 label mem k t' va (i ∷ l) (t, at, lt, leads, path) (number, f) =
    walk-TablePath pml4 label mem (suc k) t va l path f
    ∙ walk-Leads k mem t t' va (subst (λ j. Leads (suc k) (mem (t + 8 * j)) t') number leads)

module _ {S : Type 0} {InUse : S → ℕ → Type 0} {pml4 : ℕ} {label : Labels} {s : State S}
    (tree : IsTree InUse pml4 label s) where
  -- Entries of two tables are at different addresses.
  pub entries_apart :
      (t t' i j : ℕ) (l l' : List ℕ)
      → label t ≡ some l
      → label t' ≡ some l'
      → i < 512
      → j < 512
      → t + 8 * i ≡ t' + 8 * j
      → (t ≡ t') × (i ≡ j)
  entries_apart t t' i j l l' a a' lt lt' same =
      let (p, is, aligned, small, used) = tree.pages t l a in
      let (p', is', aligned', small', use') = tree.pages t' l' a' in (omega arith, omega arith)

  pub lengths_apart :
      (t t' i j : ℕ) (l l' : List ℕ)
      → label t ≡ some l
      → label t' ≡ some l'
      → i < 512
      → j < 512
      → length l ≢ length l'
      → t + 8 * i ≢ t' + 8 * j
  lengths_apart t t' i j l l' a a' lt lt' differ same =
      let (tables, _) = entries_apart t t' i j l l' a a' lt lt' same in
      let labels : some l ≡ some l' = sym a ∙ ap label tables ∙ a' in
      let numbers : l ≡ l' = cc in differ (ap length numbers)
