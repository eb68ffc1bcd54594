-- ===== src/LinkedList/Remove.antt =====
-- What `remove` and `take_first_entry` of ptr_linked_list.rs do to the list.
use methylenix.Base.{
  ◌≡◌, refl, sym, ◌∙◌, Option, none, some, List, [], ◌∷◌, ◌++◌, arith, Returns, Returns->>=, ◌>>=◌,
  ℕ, sub_usize,
}
use mathlib.Core.List.{append-nil}
use methylenix.LinkedList.{
  Ptr, node, Store, write, set_prev_of, set_next_of, LinkedList, linked_list, remove,
  take_first_entry,
}
use methylenix.LinkedList.Chain.{
  ◌∉◌, Distinct, first_or, last_or, Seg, IsList, SameOutside, Seg-write, Seg-set_prev_of,
  relink_left, last_or-append, Seg-append, Seg-split, Distinct-split, Distinct-append, last_or-some,
  Disjoint-cons, write_same, Seg-set_prev_of_first, Seg-set_next_of_last, not-has-append,
  set_prev_of_first_same, set_next_of-last_or_same,
}

-- The head and the tail once the node between `p` and `n` is gone.
abbrev head_without : Option Ptr → Option Ptr → Option Ptr → Option Ptr
head_without head none n = n
head_without head (some q) n = head

abbrev tail_without : Option Ptr → Option Ptr → Option Ptr → Option Ptr
tail_without tail p none = p
tail_without tail p (some m) = tail

abbrev relinked : Store → Option Ptr → Option Ptr → Store
relinked s p n = set_prev_of (set_next_of s p n) n p

remove_run :
    (l : LinkedList) (s : Store) (x h : Ptr) (p n : Option Ptr)
    → l.head ≡ some h
    → s x ≡ node p n
    → (p ≡ none → l.head ≡ some x)
    → (n ≡ none → l.tail ≡ some x)
    → remove l x s
      ≡ some (
        linked_list (head_without l.head p n) (tail_without l.tail p n),
        write (relinked s p n) x (node none none),
      )
unfolding remove
remove_run l s x h none none e at f t = ground (arith, f refl)
remove_run l s x h none (some m) e at f t = ground (arith, f refl)
remove_run l s x h (some q) none e at f t = ground (arith, t refl)
remove_run l s x h (some q) (some m) e at f t = ground arith

-- The list lost `x`, whose node is unlinked, and no node outside it changed.
abbrev pub Removed : Store → List Ptr → Ptr → List Ptr → LinkedList × Store → Type 0
Removed s ys x zs (l', s') =
    IsList s' l' (ys ++ zs) × (s' x ≡ node none none) × SameOutside (ys ++ x ∷ zs) s s'

relinked_head :
    (head : Option Ptr) (ys : List Ptr) (x : Ptr) (zs : List Ptr)
    → head ≡ first_or (ys ++ x ∷ zs) none
    → head_without head (last_or none ys) (first_or zs none) ≡ first_or (ys ++ zs) none
relinked_head head [] x zs e = refl
relinked_head head (y ∷ ys) x zs e = let (t, e_t) = last_or-some none y ys in rw (e_t, e)

relinked_tail :
    (tail : Option Ptr) (ys : List Ptr) (x : Ptr) (zs : List Ptr)
    → tail ≡ last_or none (ys ++ x ∷ zs)
    → tail_without tail (last_or none ys) (first_or zs none) ≡ last_or none (ys ++ zs)
relinked_tail tail ys x [] e = rw append-nil
relinked_tail tail ys x (z ∷ zs) e =
    e ∙ last_or-append none ys (x ∷ z ∷ zs) ∙ sym (last_or-append none ys (z ∷ zs))

module _ (s : Store) (ys : List Ptr) (x : Ptr) (zs : List Ptr) (d : Distinct (ys ++ x ∷ zs))
    (g : Seg s none (ys ++ x ∷ zs) none) where
  relinked-Seg :
      Seg
        (write (relinked s (last_or none ys) (first_or zs none)) x (node none none))
        none
        (ys ++ zs)
        none
  relinked-Seg =
      let (dy, dx, apart) = Distinct-split ys (x ∷ zs) d in
      let (gy, gz) = Seg-split s none ys (x ∷ zs) none g in
      let (apart_z, out_y) = Disjoint-cons ys x zs apart in
      let s1 = set_next_of s (last_or none ys) (first_or zs none) in
      Seg-append _ none ys zs none
        (Seg-write _ none ys (first_or zs none) x _ out_y (
          Seg-set_prev_of_first s1 none (last_or none ys) ys zs (first_or zs none) apart_z
            (relink_left s ys (some x) (first_or zs none) dy gy)))
        (Seg-write _ (last_or none ys) zs none x _ dx.0 (
          Seg-set_prev_of s1 (some x) (last_or none ys) zs dx.1 (
            Seg-set_next_of_last s (some x) ys zs none (some x) none gy apart_z gz.1
              (first_or zs none))))

  relinked_same :
      SameOutside
        (ys ++ x ∷ zs)
        s
        (write (relinked s (last_or none ys) (first_or zs none)) x (node none none))
  relinked_same a o =
      let (oy, oz) = not-has-append a ys (x ∷ zs) o in
      let s1 = set_next_of s (last_or none ys) (first_or zs none) in
      let oz' : a ∉ zs = ground arith in
      write_same (relinked s (last_or none ys) (first_or zs none)) a x zs (node none none) oz
      ∙ set_prev_of_first_same s1 a zs (last_or none ys) oz'
      ∙ set_next_of-last_or_same s a ys (first_or zs none) oy

  relinked_Distinct : Distinct (ys ++ zs)
  relinked_Distinct =
      let (dy, dx, apart) = Distinct-split ys (x ∷ zs) d in
      Distinct-append ys zs dy dx.1 (Disjoint-cons ys x zs apart).0

first_of_none :
    (ys : List Ptr) (x : Ptr) (zs : List Ptr)
    → (last_or none ys ≡ none → first_or (ys ++ x ∷ zs) none ≡ some x)
first_of_none [] x zs e = refl
first_of_none (y ∷ ys) x zs e = let (t, e_t) = last_or-some none y ys in cc (e, e_t)

last_of_none :
    (ys : List Ptr) (x : Ptr) (zs : List Ptr)
    → first_or zs none ≡ none
    → last_or none (ys ++ x ∷ zs) ≡ some x
last_of_none ys x [] e = last_or-append none ys (x ∷ [])
last_of_none ys x (z ∷ zs) e = cc

head_is_some :
    (ys : List Ptr) (x : Ptr) (zs : List Ptr) → (h : Ptr) × (first_or (ys ++ x ∷ zs) none ≡ some h)
head_is_some [] x zs = (x, refl)
head_is_some (y ∷ ys) x zs = (y, refl)

-- `remove` does not panic on a node `x` of the list: it leaves the list without `x`, the others in
-- their order, unlinks `x`, and changes no node that was not in the list.
pub remove-Removed :
    (l : LinkedList) (s : Store) (ys : List Ptr) (x : Ptr) (zs : List Ptr)
    → IsList s l (ys ++ x ∷ zs)
    → Returns (Removed s ys x zs) (remove l x s)
remove-Removed l s ys x zs is =
    let (h, e_h) = head_is_some ys x zs in
    let (gy, gz) = Seg-split s none ys (x ∷ zs) none is.chain in
    rw
      (remove_run l s x h (last_or none ys) (first_or zs none) (is.head ∙ e_h) gz.0
        (λ e. is.head ∙ first_of_none ys x zs e) (λ e. is.tail ∙ last_of_none ys x zs e))
      (
        record {
          head = relinked_head l.head ys x zs is.head;
          tail = relinked_tail l.tail ys x zs is.tail;
          chain = relinked-Seg s ys x zs is.distinct is.chain;
          distinct = relinked_Distinct s ys x zs is.distinct is.chain;
        },
        ground arith,
        relinked_same s ys x zs is.distinct is.chain,
      )

-- What `take_first_entry` returns from a list of `x ∷ xs`.
abbrev pub Taken : Store → ℕ → List Ptr → Option Ptr × LinkedList × Store → Type 0
Taken s offset [] (out, l', s') = (out ≡ none) × IsList s' l' [] × (s' ≡ s)
Taken s offset (x ∷ xs) (out, l', s') =
    (out ≡ some (sub_usize x offset)) × IsList s' l' xs × SameOutside (x ∷ xs) s s'

take_first_entry_run :
    (l : LinkedList) (s : Store) (offset : ℕ) (x : Ptr)
    → l.head ≡ some x
    → take_first_entry l offset s
      ≡ (remove l x s >>= λ (l', s'). some (some (sub_usize x offset), l', s'))
unfolding take_first_entry
take_first_entry_run l s offset x e = ground arith

take_first_entry_nil :
    (l : LinkedList) (s : Store) (offset : ℕ)
    → l.head ≡ none
    → take_first_entry l offset s ≡ some (none, l, s)
unfolding take_first_entry
take_first_entry_nil l s offset e = ground arith

-- `take_first_entry` does not panic: on the empty list it returns nothing and changes nothing; from
-- a list of `x ∷ xs` it returns the entry of `x` and leaves the list `xs`.
pub take_first_entry-Taken :
    (l : LinkedList) (s : Store) (offset : ℕ) (xs : List Ptr)
    → IsList s l xs
    → Returns (Taken s offset xs) (take_first_entry l offset s)
take_first_entry-Taken l s offset [] is =
    rw (take_first_entry_nil l s offset is.head) (refl, is, refl)
take_first_entry-Taken l s offset (x ∷ xs) is = rw (take_first_entry_run l s offset x is.head) (
    Returns->>= (Taken s offset (x ∷ xs)) (remove l x s) _ (remove-Removed l s [] x xs is)
      λ (l', s') (a, b, c). (refl, a, c))
