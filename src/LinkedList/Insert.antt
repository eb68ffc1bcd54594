-- ===== src/LinkedList/Insert.antt =====
-- What the insertions of ptr_linked_list.rs do to the list.
use methylenix.Base.{
  ◌≡◌, refl, sym, ◌∙◌, true, false, none, some, ◌==◌, List, [], ◌∷◌, ◌++◌, arith, Returns,
}
use mathlib.Core.Path.{fun_ext, ap}
use methylenix.LinkedList.{
  Ptr, node, Store, write, set_next, LinkedList, linked_list, insert_head, insert_tail,
  unset_prev_and_next,
}
use methylenix.LinkedList.Chain.{
  ◌∉◌, Seg, IsList, SameOutside, Seg-write, Seg-set_prev_of, ne_of_has, last_or-some, last_or-mem,
  Distinct-snoc, not-has-append, write-write_same, ==_comm, Seg-set_next, last_or-append,
  Seg-append,
}

-- The operation returned a list of `ys`, and changed no node but those of `ys`.
abbrev pub Holds : Store → List Ptr → LinkedList × Store → Type 0
Holds s ys (l', s') = IsList s' l' ys × SameOutside ys s s'

insert_head_run :
    (l : LinkedList) (s : Store) (x e : Ptr)
    → l.head ≡ some x
    → (s x).prev ≡ none
    → (x == e) ≡ false
    → insert_head l e s
      ≡ some (
        linked_list (some e) l.tail,
        write (write s x (node (some e) (s x).next)) e (node none (some x)),
      )
unfolding insert_head
insert_head_run l s x e h free ne =
    let xx : (x == x) ≡ true = ground arith in
    rw (h, free, ne, xx, insert_head)
      (ap (λ s'. some (linked_list (some e) l.tail, s')) (fun_ext λ a. ground arith))

-- On an empty list both insertions make a list of one node.
insert_empty :
    (l : LinkedList) (s : Store) (e : Ptr)
    → IsList s l []
    → (insert_head l e s ≡ some (linked_list (some e) (some e), unset_prev_and_next s e))
      × (insert_tail l e s ≡ some (linked_list (some e) (some e), unset_prev_and_next s e))
unfolding insert_head insert_tail
insert_empty l s e is = ground arith

insert_empty-Holds :
    (s : Store) (e : Ptr)
    → Holds s (e ∷ []) (linked_list (some e) (some e), unset_prev_and_next s e)
unfolding unset_prev_and_next
insert_empty-Holds s e = (
  record { head = refl; tail = refl; chain = ground arith; distinct = ground arith },
  λ a o. ground arith,
)

-- `insert_head` does not panic on a list of `xs` and a node `e` that is not in it: it makes the
-- list `e ∷ xs`, and changes no other node.
pub insert_head-Holds :
    (l : LinkedList) (s : Store) (xs : List Ptr) (e : Ptr)
    → IsList s l xs
    → e ∉ xs
    → Returns (Holds s (e ∷ xs)) (insert_head l e s)
insert_head-Holds l s [] e is out = rw ((insert_empty l s e is).0) (insert_empty-Holds s e)
insert_head-Holds l s (x ∷ xs) e is out =
    let ne : (x == e) ≡ false = ground arith in
    let s1 = write s x (node (some e) (s x).next) in
    rw (insert_head_run l s x e is.head (ground arith) ne) (
      record {
        head = refl;
        tail = is.tail;
        chain = (
          ground arith,
          Seg-write s1 (some e) (x ∷ xs) none e (node none (some x)) out
              (Seg-set_prev_of s none (some e) (x ∷ xs) is.distinct is.chain),
        );
        distinct = (out, is.distinct);
      },
      λ a o. ground arith,
    )

insert_tail_run :
    (l : LinkedList) (s : Store) (t e : Ptr)
    → l.tail ≡ some t
    → (s t).next ≡ none
    → (t == e) ≡ false
    → insert_tail l e s
      ≡ some (linked_list l.head (some e), write (set_next s t (some e)) e (node (some t) none))
unfolding insert_tail
insert_tail_run l s t e h free ne =
    let tt : (t == t) ≡ true = ground arith in
    rw (h, free, ne, tt, insert_tail)
      (ap (λ s'. some (linked_list l.head (some e), s')) (fun_ext λ a. ground arith))

-- `insert_tail` does not panic on a list of `xs` and a node `e` that is not in it: it makes the
-- list `xs ++ e ∷ []`, and changes no other node.
pub insert_tail-Holds :
    (l : LinkedList) (s : Store) (xs : List Ptr) (e : Ptr)
    → IsList s l xs
    → e ∉ xs
    → Returns (Holds s (xs ++ e ∷ [])) (insert_tail l e s)
insert_tail-Holds l s [] e is out = rw ((insert_empty l s e is).1) (insert_empty-Holds s e)
insert_tail-Holds l s (x ∷ xs) e is out =
    let (t, e_t) = last_or-some none x xs in
    let (i, free) = last_or-mem s none x xs none t e_t is.chain in
    let ne : (t == e) ≡ false = ne_of_has t e (x ∷ xs) i out in
    let g : Seg (set_next s t (some e)) none (x ∷ xs) (some e) =
      Seg-set_next s none x xs none (some e) t e_t is.distinct is.chain in
    rw (insert_tail_run l s t e (is.tail ∙ e_t) free ne) (
      record {
        head = is.head;
        tail = sym (last_or-append none (x ∷ xs) (e ∷ []));
        chain =
            Seg-append _ none (x ∷ xs) (e ∷ []) none (Seg-write _ none (x ∷ xs) (some e) e _ out g)
              (ground arith, tt);
        distinct = Distinct-snoc (x ∷ xs) e is.distinct out;
      },
      λ a o.
          let (o1, o2) = not-has-append a (x ∷ xs) (e ∷ []) o in
          write-write_same s a t e _ _ (==_comm a t ∙ ne_of_has t a (x ∷ xs) i o1) (ground arith),
    )
