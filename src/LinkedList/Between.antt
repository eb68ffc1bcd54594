-- ===== src/LinkedList/Between.antt =====
-- What `insert_before` and `insert_after` of ptr_linked_list.rs do to the list.
use mathlib.Core.Path.{fun_ext, subst}
use mathlib.Core.List.{append_assoc}
use methylenix.Base.{
  ◌≡◌, refl, ap, sym, ◌∙◌, true, false, none, some, ◌==◌, List, [], ◌∷◌, ◌++◌, arith, Returns,
}
use methylenix.LinkedList.{
  Ptr, Node, node, Store, write, set_prev, set_next, set_next_of, LinkedList, insert_head,
  insert_tail, insert_before, insert_after,
}
use methylenix.LinkedList.Chain.{
  ◌∉◌, Distinct, first_or, last_or, Seg, IsList, SameOutside, Seg-write, Seg-set_prev_of,
  relink_left, last_or-append, Seg-append, Seg-split, Distinct-split, Distinct-insert, last_or-some,
  Seg-set_prev_of_first, Seg-set_next_of_last, not-has-append, Disjoint-cons, last_or-ne,
}
use methylenix.LinkedList.Insert.{Holds, insert_head-Holds, insert_tail-Holds}

-- The store with `e` linked between `q` and `z`.
abbrev between : Store → Ptr → Ptr → Ptr → Store
between s q e z = write (set_prev (set_next s q (some e)) z (some e)) e (node (some q) (some z))

module _ (l : LinkedList) (s : Store) (p e q : Ptr) (ne : (p == e) ≡ false) (ne' : (q == e) ≡ false)
    (apart : (q == p) ≡ false) where
  insert_before_run : (s p).prev ≡ some q → insert_before l p e s ≡ some (l, between s q e p)
  unfolding insert_before
  insert_before_run h =
      let ee : (e == e) ≡ true = ground arith in
      let ep : (e == p) ≡ false = ground arith in
      rw (h, ne, ee, ep, insert_before) (ap (λ s'. some (l, s')) (fun_ext λ a. ground arith))

  insert_after_run : (s q).next ≡ some p → insert_after l q e s ≡ some (l, between s q e p)
  unfolding insert_after
  insert_after_run h =
      let ee : (e == e) ≡ true = ground arith in
      let eq : (e == q) ≡ false = ground arith in
      rw (h, ne', ee, eq, insert_after) (ap (λ s'. some (l, s')) (fun_ext λ a. ground arith))

between_head :
    (ys : List Ptr) (q e z : Ptr) (zs : List Ptr)
    → last_or none ys ≡ some q
    → first_or (ys ++ z ∷ zs) none ≡ first_or (ys ++ e ∷ z ∷ zs) none
between_head [] q e z zs h = cc
between_head (y ∷ ys) q e z zs h = refl

module _ (s : Store) (ys : List Ptr) (q e z : Ptr) (zs : List Ptr) (last : last_or none ys ≡ some q)
    (d : Distinct (ys ++ z ∷ zs)) (out : e ∉ ys ++ z ∷ zs) where
  between_other :
      (a : Ptr) → (a == q) ≡ false → (a == e) ≡ false → (a == z) ≡ false → between s q e z a ≡ s a
  between_other a hq he hz = ground arith

  between-Seg : Seg s none (ys ++ z ∷ zs) none → Seg (between s q e z) none (ys ++ e ∷ z ∷ zs) none
  between-Seg g =
      let (dy, dz, apart) = Distinct-split ys (z ∷ zs) d in
      let (gy, gz) = Seg-split s none ys (z ∷ zs) none g in
      let (oy, oz) = not-has-append e ys (z ∷ zs) out in
      let s1 = set_next s q (some e) in
      let s2 = set_prev s1 z (some e) in
      let left : Seg s1 none ys (some e) =
        subst (λ o. Seg (set_next_of s o (some e)) none ys (some e)) last
          (relink_left s ys (some z) (some e) dy gy) in
      let right : Seg s1 (some q) (z ∷ zs) none =
        subst (λ o. Seg (set_next_of s o (some e)) o (z ∷ zs) none) last
          (Seg-set_next_of_last s (last_or none ys) ys (z ∷ zs) none (some z) none gy apart gz
            (some e)) in
      Seg-append (between s q e z) none ys (e ∷ z ∷ zs) none
        (Seg-write s2 none ys (some e) e _ oy
          (Seg-set_prev_of_first s1 none (some e) ys (z ∷ zs) (some e) apart left))
        (
          rw last (ground arith),
          Seg-write s2 (some e) (z ∷ zs) none e _ oz
              (Seg-set_prev_of s1 (some q) (some e) (z ∷ zs) dz right),
        )

  between_same : SameOutside (ys ++ e ∷ z ∷ zs) s (between s q e z)
  between_same a o =
      let (oy, oz) = not-has-append a ys (e ∷ z ∷ zs) o in
      let aq : (a == q) ≡ false = last_or-ne a ys q last oy in
      between_other a aq (ground arith) (ground arith)

  between-Holds :
      {l : LinkedList} → IsList s l (ys ++ z ∷ zs) → Holds s (ys ++ e ∷ z ∷ zs) (l, between s q e z)
  between-Holds is = (
    record {
      head = is.head ∙ between_head ys q e z zs last;
      tail = is.tail ∙ last_or-append none ys (z ∷ zs) ∙ sym (last_or-append none ys (e ∷ z ∷ zs));
      chain = between-Seg is.chain;
      distinct = Distinct-insert ys e (z ∷ zs) d out;
    },
    between_same,
  )

  -- The three nodes are different.
  between_ne : ((z == e) ≡ false) × ((q == e) ≡ false) × ((q == z) ≡ false)
  between_ne =
      let (oy, oz) = not-has-append e ys (z ∷ zs) out in
      let (dy, dz, apart) = Distinct-split ys (z ∷ zs) d in
      let a : (e == q) ≡ false = last_or-ne e ys q last oy in
      let b : (z == q) ≡ false = last_or-ne z ys q last (Disjoint-cons ys z zs apart).1 in
      (ground arith, ground arith, ground arith)

insert_before_first :
    (l : LinkedList) (s : Store) (p e : Ptr)
    → (s p).prev ≡ none
    → insert_before l p e s ≡ insert_head l e s
unfolding insert_before
insert_before_first l s p e h = rw h

insert_after_last :
    (l : LinkedList) (s : Store) (q e : Ptr)
    → (s q).next ≡ none
    → insert_after l q e s ≡ insert_tail l e s
unfolding insert_after
insert_after_last l s q e h = rw h

-- `insert_before` does not panic on a node `p` of the list and a node `e` outside it: it puts `e`
-- just before `p`, and changes no node outside the list.
pub insert_before-Holds :
    (l : LinkedList) (s : Store) (ys : List Ptr) (p : Ptr) (zs : List Ptr) (e : Ptr)
    → IsList s l (ys ++ p ∷ zs)
    → e ∉ ys ++ p ∷ zs
    → Returns (Holds s (ys ++ e ∷ p ∷ zs)) (insert_before l p e s)
insert_before-Holds l s [] p zs e is out =
    rw (insert_before_first l s p e (ap (λ (n : Node). n.prev) is.chain.0))
      (insert_head-Holds l s (p ∷ zs) e is out)
insert_before-Holds l s (y ∷ ys) p zs e is out =
    let (q, last) = last_or-some none y ys in
    let (gy, gz) = Seg-split s none (y ∷ ys) (p ∷ zs) none is.chain in
    let (ne, ne', apart) = between_ne s (y ∷ ys) q e p zs last is.distinct out in
    rw (insert_before_run l s p e q ne ne' apart (ap (λ (n : Node). n.prev) gz.0 ∙ last))
      (between-Holds s (y ∷ ys) q e p zs last is.distinct out is)

insert_after_inner :
    (l : LinkedList) (s : Store) (ys : List Ptr) (q p : Ptr) (zs : List Ptr) (e : Ptr)
    → last_or none ys ≡ some q
    → (s q).next ≡ some p
    → IsList s l (ys ++ p ∷ zs)
    → e ∉ ys ++ p ∷ zs
    → Returns (Holds s (ys ++ e ∷ p ∷ zs)) (insert_after l q e s)
insert_after_inner l s ys q p zs e last h is out =
    let (ne, ne', apart) = between_ne s ys q e p zs last is.distinct out in
    rw (insert_after_run l s p e q ne ne' apart h)
      (between-Holds s ys q e p zs last is.distinct out is)

-- `insert_after` does not panic on a node `q` of the list and a node `e` outside it: it puts `e`
-- just after `q`, and changes no node outside the list.
pub insert_after-Holds :
    (l : LinkedList) (s : Store) (ys : List Ptr) (q : Ptr) (zs : List Ptr) (e : Ptr)
    → IsList s l (ys ++ q ∷ zs)
    → e ∉ ys ++ q ∷ zs
    → Returns (Holds s (ys ++ q ∷ e ∷ zs)) (insert_after l q e s)
insert_after-Holds l s ys q [] e is out =
    let (gy, gz) = Seg-split s none ys (q ∷ []) none is.chain in
    rw
      (
        insert_after_last l s q e (ap (λ (n : Node). n.next) gz.0),
        ← append_assoc ys (q ∷ []) (e ∷ []),
      )
      (insert_tail-Holds l s (ys ++ q ∷ []) e is out)
insert_after-Holds l s ys q (p ∷ zs) e is out =
    let (gy, gz) = Seg-split s none ys (q ∷ p ∷ zs) none is.chain in
    let regroup : (ys ++ q ∷ []) ++ p ∷ zs ≡ ys ++ q ∷ p ∷ zs = append_assoc ys (q ∷ []) (p ∷ zs) in
    subst (λ ws. Returns (Holds s ws) (insert_after l q e s))
      (append_assoc ys (q ∷ []) (e ∷ p ∷ zs))
      (insert_after_inner l s (ys ++ q ∷ []) q p zs e (last_or-append none ys (q ∷ []))
        (ap (λ (n : Node). n.next) gz.0) (subst (IsList s l) (sym regroup) is)
        (subst (λ ws. e ∉ ws) (sym regroup) out))
