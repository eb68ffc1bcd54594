-- ===== src/LinkedList/Iter.antt =====
-- What the iterators of ptr_linked_list.rs visit.
use methylenix.Base.{
  ℕ, suc, zero, ◌≤◌, ◌≡◌, refl, ap, none, some, List, [], ◌∷◌, arith, sub_usize, length, Option,
}
use mathlib.Core.List.{map}
use methylenix.LinkedList.{Ptr, Node, Store, LinkedList, iter_from}
use methylenix.LinkedList.Chain.{first_or, Seg, IsList}

iter_from-Seg :
    (fuel : ℕ) (offset : ℕ) (s : Store) (p : Option Ptr) (xs : List Ptr)
    → length xs ≤ fuel
    → Seg s p xs none
    → iter_from fuel offset (first_or xs none) s ≡ some (map (λ x. sub_usize x offset) xs)
unfolding iter_from
iter_from-Seg zero offset s p [] h g = refl
iter_from-Seg (suc fuel) offset s p [] h g = refl
iter_from-Seg zero offset s p (x ∷ xs) h g = absurd (omega arith)
iter_from-Seg (suc fuel) offset s p (x ∷ xs) h g =
    rw (ap (λ (n : Node). n.next) g.0, iter_from-Seg fuel offset s (some x) xs (omega arith) g.1)

-- A loop over `iter` on a list of `xs` ends after one round for each node, and visits the entries
-- of `xs` in order.
pub iter_from-map :
    (l : LinkedList) (s : Store) (xs : List Ptr) (offset fuel : ℕ)
    → IsList s l xs
    → length xs ≤ fuel
    → iter_from fuel offset l.head s ≡ some (map (λ x. sub_usize x offset) xs)
iter_from-map l s xs offset fuel is h = rw is.head (iter_from-Seg fuel offset s none xs h is.chain)
