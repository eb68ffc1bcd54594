-- ===== src/LinkedList/Chain.antt =====
-- What a list of the store is: a chain of nodes at distinct addresses, linked both ways.
use methylenix.Base.{
  ℕ, ◌≡◌, refl, sym, Bool, true, false, Option, none, some, ◌==◌, List, [], ◌∷◌, ◌++◌, ◌||◌, ◌∙◌,
  arith, Bool-cases, inl, inr,
}
use mathlib.Core.Path.{subst}
use methylenix.LinkedList.{
  Ptr, Node, node, Store, write, set_prev_of, set_next_of, set_next, LinkedList,
}

abbrev pub has : Ptr → List Ptr → Bool
has a [] = false
has a (x ∷ xs) = (a == x) || has a xs

infix 40 ◌∉◌
abbrev pub ◌∉◌ : Ptr → List Ptr → Type 0
a ∉ xs = has a xs ≡ false

abbrev pub Distinct : List Ptr → Type 0
Distinct [] = Unit
Distinct (x ∷ xs) = (x ∉ xs) × Distinct xs

-- The first address of `xs`, or what follows it.
abbrev pub first_or : List Ptr → Option Ptr → Option Ptr
first_or [] n = n
first_or (x ∷ xs) n = some x

-- The last address of `xs`, or what comes before it.
abbrev pub last_or : Option Ptr → List Ptr → Option Ptr
last_or p [] = p
last_or p (x ∷ xs) = last_or (some x) xs

-- The nodes at `xs` are linked in this order both ways, between `p` and `n`.
abbrev pub Seg : Store → Option Ptr → List Ptr → Option Ptr → Type 0
Seg s p [] n = Unit
Seg s p (x ∷ xs) n = (s x ≡ node p (first_or xs n)) × Seg s (some x) xs n

-- The list `l` holds exactly the nodes `xs`, in order.
pub record IsList (s : Store) (l : LinkedList) (xs : List Ptr) : Type 0 where
  pub head : l.head ≡ first_or xs none
  pub tail : l.tail ≡ last_or none xs
  pub chain : Seg s none xs none
  pub distinct : Distinct xs

-- Every node but those at `e` and in `xs` is as it was.
abbrev pub SameOutside : List Ptr → Store → Store → Type 0
SameOutside xs s s' = (a : Ptr) → a ∉ xs → s' a ≡ s a

pub Seg-write :
    (s : Store) (p : Option Ptr) (xs : List Ptr) (n : Option Ptr) (e : Ptr) (v : Node)
    → e ∉ xs
    → Seg s p xs n
    → Seg (write s e v) p xs n
Seg-write s p [] n e v out g = tt
Seg-write s p (x ∷ xs) n e v out g =
    (ground arith, Seg-write s (some x) xs n e v (ground arith) g.1)

-- The first link of a chain is changed by a write to its first node.
pub Seg-set_prev_of :
    (s : Store) (p q : Option Ptr) (xs : List Ptr)
    → Distinct xs
    → Seg s p xs none
    → Seg (set_prev_of s (first_or xs none) q) q xs none
Seg-set_prev_of s p q [] d g = tt
Seg-set_prev_of s p q (x ∷ xs) d g =
    (ground arith, Seg-write s (some x) xs none x (node q (s x).next) d.0 g.1)

pub ne_of_has : (a b : Ptr) (xs : List Ptr) → has a xs ≡ true → b ∉ xs → (a == b) ≡ false
ne_of_has a b xs i out = ground arith

-- A write to the last node leaves the nodes elsewhere alone.
pub set_next_of_last_same :
    (s : Store) (a y : Ptr) (xs : List Ptr) (m : Option Ptr)
    → a ∉ y ∷ xs
    → set_next_of s (last_or (some y) xs) m a ≡ s a
set_next_of_last_same s a y [] m out = ground arith
set_next_of_last_same s a y (x ∷ xs) m out = set_next_of_last_same s a x xs m (ground arith)

-- The last link of a chain is changed by a write to its last node.
pub Seg-set_next_of :
    (s : Store) (p : Option Ptr) (x : Ptr) (xs : List Ptr) (n m : Option Ptr)
    → Distinct (x ∷ xs)
    → Seg s p (x ∷ xs) n
    → Seg (set_next_of s (last_or p (x ∷ xs)) m) p (x ∷ xs) m
Seg-set_next_of s p x [] n m d g = (ground arith, tt)
Seg-set_next_of s p x (y ∷ xs) n m d g =
    (set_next_of_last_same s x y xs m d.0 ∙ g.0, Seg-set_next_of s (some x) y xs n m d.1 g.1)

pub Seg-set_next :
    (s : Store) (p : Option Ptr) (x : Ptr) (xs : List Ptr) (n m : Option Ptr) (t : Ptr)
    → last_or p (x ∷ xs) ≡ some t
    → Distinct (x ∷ xs)
    → Seg s p (x ∷ xs) n
    → Seg (set_next s t m) p (x ∷ xs) m
Seg-set_next s p x xs n m t e d g =
    subst (λ o. Seg (set_next_of s o m) p (x ∷ xs) m) e (Seg-set_next_of s p x xs n m d g)

-- The last node of a chain is one of its nodes, and its forward link leads out of the chain.
pub last_or-mem :
    (s : Store) (p : Option Ptr) (x : Ptr) (xs : List Ptr) (n : Option Ptr) (t : Ptr)
    → last_or p (x ∷ xs) ≡ some t
    → Seg s p (x ∷ xs) n
    → (has t (x ∷ xs) ≡ true) × ((s t).next ≡ n)
last_or-mem s p x [] n t e g = ground arith
last_or-mem s p x (y ∷ xs) n t e g =
    let (i, h) = last_or-mem s (some x) y xs n t e g.1 in (ground arith, h)

pub last_or-some :
    (p : Option Ptr) (x : Ptr) (xs : List Ptr) → (t : Ptr) × (last_or p (x ∷ xs) ≡ some t)
last_or-some p x [] = (x, refl)
last_or-some p x (y ∷ xs) = last_or-some (some x) y xs

-- A chain survives any change elsewhere.
pub Seg-same :
    (s s' : Store) (p : Option Ptr) (xs : List Ptr) (n : Option Ptr)
    → ((a : Ptr) → has a xs ≡ true → s' a ≡ s a)
    → Seg s p xs n
    → Seg s' p xs n
Seg-same s s' p [] n same g = tt
Seg-same s s' p (x ∷ xs) n same g =
    (same x (ground arith) ∙ g.0, Seg-same s s' (some x) xs n (λ a i. same a (ground arith)) g.1)

pub first_or-append :
    (xs ys : List Ptr) (n : Option Ptr) → first_or (xs ++ ys) n ≡ first_or xs (first_or ys n)
first_or-append [] ys n = refl
first_or-append (x ∷ xs) ys n = refl

pub last_or-append :
    (p : Option Ptr) (xs ys : List Ptr) → last_or p (xs ++ ys) ≡ last_or (last_or p xs) ys
last_or-append p [] ys = refl
last_or-append p (x ∷ xs) ys = last_or-append (some x) xs ys

pub has-append : (a : Ptr) (xs ys : List Ptr) → has a (xs ++ ys) ≡ (has a xs || has a ys)
has-append a [] ys = refl
has-append a (x ∷ xs) ys = ground (arith, has-append a xs ys)

-- A chain of two parts is a chain on each, linked where they meet.
pub Seg-append :
    (s : Store) (p : Option Ptr) (xs ys : List Ptr) (n : Option Ptr)
    → Seg s p xs (first_or ys n)
    → Seg s (last_or p xs) ys n
    → Seg s p (xs ++ ys) n
Seg-append s p [] ys n g h = h
Seg-append s p (x ∷ xs) ys n g h =
    (rw (first_or-append xs ys n) g.0, Seg-append s (some x) xs ys n g.1 h)

pub Seg-split :
    (s : Store) (p : Option Ptr) (xs ys : List Ptr) (n : Option Ptr)
    → Seg s p (xs ++ ys) n
    → Seg s p xs (first_or ys n) × Seg s (last_or p xs) ys n
Seg-split s p [] ys n g = (tt, g)
Seg-split s p (x ∷ xs) ys n g =
    let (a, b) = Seg-split s (some x) xs ys n g.1 in ((rw (first_or-append xs ys n) at g.0, a), b)

-- No address stands in both.
abbrev pub Disjoint : List Ptr → List Ptr → Type 0
Disjoint [] ys = Unit
Disjoint (x ∷ xs) ys = (x ∉ ys) × Disjoint xs ys

pub Distinct-append :
    (xs ys : List Ptr) → Distinct xs → Distinct ys → Disjoint xs ys → Distinct (xs ++ ys)
Distinct-append [] ys d e apart = e
Distinct-append (x ∷ xs) ys d e apart =
    (rw (has-append x xs ys) (ground arith), Distinct-append xs ys d.1 e apart.1)

pub Distinct-split :
    (xs ys : List Ptr) → Distinct (xs ++ ys) → Distinct xs × Distinct ys × Disjoint xs ys
Distinct-split [] ys d = (tt, d, tt)
Distinct-split (x ∷ xs) ys d =
    let (a, b, c) = Distinct-split xs ys d.1 in
    let e : (has x xs || has x ys) ≡ false = rw (has-append x xs ys) at d.0 in
    ((ground arith, a), b, (ground arith, c))

-- From the other side: nothing of `ys` is in `xs`.
pub Disjoint-ne : (a : Ptr) (xs ys : List Ptr) → Disjoint xs ys → has a ys ≡ true → a ∉ xs
Disjoint-ne a [] ys apart i = refl
Disjoint-ne a (x ∷ xs) ys apart i = ground (arith, Disjoint-ne a xs ys apart.1 i)

pub Disjoint-intro : (xs ys : List Ptr) → ((a : Ptr) → has a ys ≡ true → a ∉ xs) → Disjoint xs ys
Disjoint-intro [] ys h = tt
Disjoint-intro (x ∷ xs) ys h = (
  elim (Bool-cases (has x ys)) [ inl i ↦ absurd (ne (h x i)) | inr o ↦ o ],
  Disjoint-intro xs ys (λ a i. ground (arith, h a i)),
)
  where
    ne : (has x (x ∷ xs) ≡ false) → ⊥
    ne e = ground arith

pub not-has-append : (a : Ptr) (xs ys : List Ptr) → a ∉ xs ++ ys → (a ∉ xs) × (a ∉ ys)
not-has-append a xs ys out =
    let e : (has a xs || has a ys) ≡ false = rw (has-append a xs ys) at out in ground arith

pub Distinct-snoc : (xs : List Ptr) (e : Ptr) → Distinct xs → e ∉ xs → Distinct (xs ++ e ∷ [])
Distinct-snoc [] e d out = (refl, tt)
Distinct-snoc (x ∷ xs) e d out =
    (rw (has-append x xs (e ∷ [])) (ground arith), Distinct-snoc xs e d.1 (ground arith))

-- Two writes leave the nodes elsewhere alone.
pub write-write_same :
    (s : Store) (a p q : Ptr) (v w : Node)
    → (a == p) ≡ false
    → (a == q) ≡ false
    → write (write s p v) q w a ≡ s a
write-write_same s a p q v w hp hq = ground arith

pub ==_comm : (a b : ℕ) → (a == b) ≡ (b == a)
==_comm a b = ground arith

pub Disjoint-not-has : (a : Ptr) (xs ys : List Ptr) → Disjoint xs ys → has a xs ≡ true → a ∉ ys
Disjoint-not-has a [] ys apart i = cc
Disjoint-not-has a (x ∷ xs) ys apart i = ground (arith, Disjoint-not-has a xs ys apart.1)

-- What a chain keeps when the first node of another, or the last one, is written to.
pub Seg-set_prev_of_first :
    (s : Store) (p q : Option Ptr) (ys zs : List Ptr) (n : Option Ptr)
    → Disjoint ys zs
    → Seg s p ys n
    → Seg (set_prev_of s (first_or zs none) q) p ys n
Seg-set_prev_of_first s p q ys [] n apart g = g
Seg-set_prev_of_first s p q ys (z ∷ zs) n apart g =
    Seg-write s p ys n z _ (Disjoint-ne z ys (z ∷ zs) apart (ground arith)) g

pub Seg-set_next_of_last :
    (s : Store) (p : Option Ptr) (ys zs : List Ptr) (n m : Option Ptr) (o : Option Ptr)
    → Seg s o ys m
    → Disjoint ys zs
    → Seg s p zs n
    → (k : Option Ptr) → Seg (set_next_of s (last_or none ys) k) p zs n
Seg-set_next_of_last s p [] zs n m o h apart g k = g
Seg-set_next_of_last s p (y ∷ ys) zs n m o h apart g k =
    let (t, e) = last_or-some none y ys in
    let (i, _) = last_or-mem s o y ys m t e h in
    subst (λ r. Seg (set_next_of s r k) p zs n) (sym e)
      (Seg-write s p zs n t _ (Disjoint-not-has t (y ∷ ys) zs apart i) g)

pub set_prev_of_first_same :
    (s : Store) (a : Ptr) (zs : List Ptr) (q : Option Ptr)
    → a ∉ zs
    → set_prev_of s (first_or zs none) q a ≡ s a
set_prev_of_first_same s a [] q o = refl
set_prev_of_first_same s a (z ∷ zs) q o = ground arith

pub set_next_of-last_or_same :
    (s : Store) (a : Ptr) (ys : List Ptr) (m : Option Ptr)
    → a ∉ ys
    → set_next_of s (last_or none ys) m a ≡ s a
set_next_of-last_or_same s a [] m o = refl
set_next_of-last_or_same s a (y ∷ ys) m o = set_next_of_last_same s a y ys m o

pub Disjoint-cons :
    (ys : List Ptr) (x : Ptr) (zs : List Ptr) → Disjoint ys (x ∷ zs) → Disjoint ys zs × (x ∉ ys)
Disjoint-cons [] x zs apart = (tt, refl)
Disjoint-cons (y ∷ ys) x zs apart =
    let (a, b) = Disjoint-cons ys x zs apart.1 in ((ground arith, a), ground arith)

pub write_same :
    (s : Store) (a x : Ptr) (xs : List Ptr) (v : Node) → a ∉ x ∷ xs → write s x v a ≡ s a
write_same s a x xs v out = ground arith

pub relink_left :
    (s : Store) (ys : List Ptr) (n m : Option Ptr)
    → Distinct ys
    → Seg s none ys n
    → Seg (set_next_of s (last_or none ys) m) none ys m
relink_left s [] n m d g = tt
relink_left s (y ∷ ys) n m d g = Seg-set_next_of s none y ys n m d g

pub Disjoint-insert :
    (ys : List Ptr) (e : Ptr) (zs : List Ptr) → Disjoint ys zs → e ∉ ys → Disjoint ys (e ∷ zs)
Disjoint-insert [] e zs apart out = tt
Disjoint-insert (y ∷ ys) e zs apart out =
    (ground arith, Disjoint-insert ys e zs apart.1 (ground arith))

pub Distinct-insert :
    (ys : List Ptr) (e : Ptr) (zs : List Ptr)
    → Distinct (ys ++ zs)
    → e ∉ ys ++ zs
    → Distinct (ys ++ e ∷ zs)
Distinct-insert ys e zs d out =
    let (dy, dz, apart) = Distinct-split ys zs d in
    let (oy, oz) = not-has-append e ys zs out in
    Distinct-append ys (e ∷ zs) dy (oz, dz) (Disjoint-insert ys e zs apart oy)

pub last_or-ne :
    (a : Ptr) (ys : List Ptr) (q : Ptr) → last_or none ys ≡ some q → a ∉ ys → (a == q) ≡ false
last_or-ne a [] q e o = cc
last_or-ne a (y ∷ []) q e o = ground arith
last_or-ne a (y ∷ z ∷ ys) q e o = last_or-ne a (z ∷ ys) q e (ground arith)
