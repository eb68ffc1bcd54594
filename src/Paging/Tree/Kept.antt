-- ===== src/Paging/Tree/Kept.antt =====
-- Which walks a change of the tables leaves as they were.
use mathlib.Core.Path.{subst}
use methylenix.Base.{
  ℕ, zero, suc, ◌+◌, ◌*◌, ◌<◌, ◌≤◌, ◌≡◌, ◌≢◌, refl, sym, ap, ◌∙◌, ◌⊎◌, inl, inr, Bool, true, false,
  Option, none, some, List, [], ◌∷◌, length, arith,
}
use methylenix.Paging.Entry.{Entry}
use methylenix.Paging.State.{Memory, State}
use methylenix.Paging.Walk.{index, ends, child, chosen, walk}
use methylenix.Paging.Tree
use methylenix.Paging.Tree.{Labels, IsTree, TablePath, Leads, index-lt, chosen_below, chosen_absent}

chosen_nothing :
    (p : Bool) {e : Bool} (here : Option (ℕ × Entry)) {below : Option (ℕ × Entry)}
    → e ≡ false
    → below ≡ none
    → chosen p e here below ≡ none
chosen_nothing p here h g = ground arith

chosen_ap :
    (p e : Bool) (here below below' : Option (ℕ × Entry))
    → (p ≡ true → e ≡ false → below ≡ below')
    → chosen p e here below ≡ chosen p e here below'
chosen_ap false e here below below' h = refl
chosen_ap true true here below below' h = refl
chosen_ap true false here below below' h = h refl refl

-- The walk goes on from the same entry.
pub step :
    (k : ℕ) (mem mem' : Memory) (t va : ℕ) (e : Entry)
    → mem (t + 8 * index (suc k) va) ≡ e
    → mem' (t + 8 * index (suc k) va) ≡ e
    → (e.present ≡ true
        → ends (suc k) e ≡ false
        → walk k mem' (child e) va ≡ walk k mem (child e) va)
    → walk (suc k) mem' t va ≡ walk (suc k) mem t va
unfolding walk
step k mem mem' t va e here here' below =
    let f : Memory → Entry → Option (ℕ × Entry) =
      λ m e. chosen e.present (ends (suc k) e) (some (suc k, e)) (walk k m (child e) va) in
    ap (f mem') here'
    ∙ chosen_ap e.present (ends (suc k) e) (some (suc k, e)) _ _ below
    ∙ sym (ap (f mem) here)

pub leaf_step :
    (mem mem' : Memory) (t va : ℕ)
    → mem' (t + 8 * index zero va) ≡ mem (t + 8 * index zero va)
    → walk zero mem' t va ≡ walk zero mem t va
unfolding walk
leaf_step mem mem' t va same = ap (λ (e : Entry). chosen e.present true (some (zero, e)) none) same

-- Where an entry was not present, the walk finds nothing; and nothing below an entry that leads nowhere.
pub walk_absent :
    (k : ℕ) (mem : Memory) (t va : ℕ)
    → (mem (t + 8 * index k va)).present ≡ false
    → walk k mem t va ≡ none
unfolding walk
walk_absent zero mem t va h = chosen_absent _ _ _ h
walk_absent (suc k) mem t va h = chosen_absent _ _ _ h

pub walk_nowhere :
    (k : ℕ) (mem : Memory) (t va : ℕ)
    → ends (suc k) (mem (t + 8 * index (suc k) va)) ≡ false
    → walk k mem (child (mem (t + 8 * index (suc k) va))) va ≡ none
    → walk (suc k) mem t va ≡ none
unfolding walk
walk_nowhere k mem t va h g = chosen_nothing _ _ h g

pub empty_table :
    (k : ℕ) (mem : Memory) (t va : ℕ)
    → ((i : ℕ) → i < 512 → (mem (t + 8 * i)).present ≡ false)
    → walk k mem t va ≡ none
empty_table k mem t va h = walk_absent k mem t va (h (index k va) (index-lt k va))

-- An entry as it was; or one that was not present and leads to a table where nothing is.
abbrev pub IsKept : ℕ → Memory → Memory → ℕ → Type 0
IsKept k mem mem' a =
    (mem' a ≡ mem a)
    ⊎ (((mem a).present ≡ false)
        × (ends (suc k) (mem' a) ≡ false)
        × ((va : ℕ) → walk k mem' (child (mem' a)) va ≡ none))

-- The path to a table is in the tables above it.
pub TablePath-kept :
    (pml4 n : ℕ) (label label' : Labels) (mem mem' : Memory)
    → ((t j : ℕ) (m : List ℕ)
        → label t ≡ some m
        → length m < n
        → j < 512
        → (mem' (t + 8 * j) ≡ mem (t + 8 * j)) × (label' t ≡ some m))
    → (k t : ℕ) (l : List ℕ) → length l ≤ n
    → TablePath pml4 label mem k t l
    → TablePath pml4 label' mem' k t l
TablePath-kept pml4 n label label' mem mem' keeps k t [] le path = path
TablePath-kept pml4 n label label' mem mem' keeps k t (i ∷ l) le (q, at, lt, leads, path) =
    let (same, at') = keeps q i l at (omega arith) lt in
    (
      q,
      at',
      lt,
      subst (λ e. Leads (suc k) e t) (sym same) leads,
      TablePath-kept pml4 n label label' mem mem' keeps (suc k) q l (omega arith) path,
    )

-- The numbers of the leaf that the walk from a table comes to.
abbrev pub leaf_of : ℕ → ℕ → List ℕ → List ℕ
leaf_of va zero l = index zero va ∷ l
leaf_of va (suc k) l = leaf_of va k (index (suc k) va ∷ l)

module _ {S : Type 0} {InUse : S → ℕ → Type 0} {pml4 : ℕ} {label : Labels} {s : State S}
    (tree : IsTree InUse pml4 label s) (mem' : Memory) where
  below :
      (t i k : ℕ) (l : List ℕ)
      → label t ≡ some l
      → length l + suc k ≡ 3
      → i < 512
      → (s.memory (t + 8 * i)).present ≡ true
      → ends (suc k) (s.memory (t + 8 * i)) ≡ false
      → label (child (s.memory (t + 8 * i))) ≡ some (i ∷ l)
  below t i k l at level lt present goes =
      let linked = tree.linked t i k l at level lt in (linked.1 (linked.0 present)).1 goes

  pub walks_kept :
      ((t i k : ℕ) (l : List ℕ)
        → label t ≡ some l
        → length l + suc k ≡ 3
        → i < 512
        → IsKept k s.memory mem' (t + 8 * i))
      → ((t i : ℕ) (l : List ℕ)
          → label t ≡ some l
          → length l ≡ 3
          → i < 512
          → mem' (t + 8 * i) ≡ s.memory (t + 8 * i))
      → (k t va : ℕ) (l : List ℕ) → label t ≡ some l
      → length l + k ≡ 3
      → walk k mem' t va ≡ walk k s.memory t va
  walks_kept upper leaves zero t va l at level =
      leaf_step s.memory mem' t va (leaves t (index zero va) l at (omega arith) (index-lt zero va))
  walks_kept upper leaves (suc k) t va l at level =
      let lt = index-lt (suc k) va in
      elim (upper t (index (suc k) va) k l at level lt) [
        | inl same ↦ step k s.memory mem' t va _ refl same (λ present goes.
            walks_kept upper leaves k _ va (index (suc k) va ∷ l)
              (below t (index (suc k) va) k l at level lt present goes) (omega arith))
        | inr (absent, goes, nowhere) ↦
            walk_nowhere k mem' t va goes (nowhere va)
            ∙ sym (walk_absent (suc k) s.memory t va absent)
      ]

  -- Where one leaf is written, walks that do not come to it stay.
  pub walks_beside :
      (t0 i0 : ℕ) (l0 : List ℕ)
      → label t0 ≡ some l0
      → length l0 ≡ 3
      → i0 < 512
      → ((x : ℕ) → x ≢ t0 + 8 * i0 → mem' x ≡ s.memory x)
      → (k t va : ℕ) (l : List ℕ) → label t ≡ some l
      → length l + k ≡ 3
      → leaf_of va k l ≢ i0 ∷ l0
      → walk k mem' t va ≡ walk k s.memory t va
  walks_beside t0 i0 l0 at0 full lt0 others zero t va l at level beside =
      leaf_step s.memory mem' t va (
        others (t + 8 * index zero va) (λ same.
          let (tables, numbers) =
            Tree.entries_apart tree t t0 (index zero va) i0 l l0 at at0 (index-lt zero va) lt0
              same in
          let labels : some l ≡ some l0 = sym at ∙ ap label tables ∙ at0 in
          let leads : l ≡ l0 = cc in beside cc))
  walks_beside t0 i0 l0 at0 full lt0 others (suc k) t va l at level beside =
      let lt = index-lt (suc k) va in
      step k s.memory mem' t va _ refl
        (others (t + 8 * index (suc k) va)
          (Tree.lengths_apart tree t t0 (index (suc k) va) i0 l l0 at at0 lt lt0 (omega arith)))
        (λ present goes.
          walks_beside t0 i0 l0 at0 full lt0 others k _ va (index (suc k) va ∷ l)
            (below t (index (suc k) va) k l at level lt present goes) (omega arith) beside)
