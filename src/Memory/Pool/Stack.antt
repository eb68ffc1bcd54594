-- ===== src/Memory/Pool/Stack.antt =====
-- The pool allocator is a stack of free objects.
use methylenix.Base.{
  ℕ, ◌+◌, ◌-◌, ◌<◌, ◌≡◌, ◌≢◌, refl, true, false, Option, none, some, ◌==◌, List, [], ◌∷◌, arith,
  add_usize, sub_usize, ltb, Returns, usize_mod, length,
}
use methylenix.Memory.Pool.{Ptr, PoolAllocator, Store, write, alloc_ptr, free_ptr}

abbrev pub first : ℕ → List Ptr → Option Ptr
first offset [] = none
first offset (x ∷ xs) = some (x + offset)

-- The free objects at `xs` are linked in this order.
abbrev pub Chain : ℕ → Store → List Ptr → Type 0
Chain offset s [] = Unit
Chain offset s (x ∷ xs) = (s (x + offset) ≡ first offset xs) × Chain offset s xs

abbrev pub Out : Ptr → List Ptr → Type 0
Out p [] = Unit
Out p (x ∷ xs) = (p ≢ x) × Out p xs

abbrev pub Distinct : List Ptr → Type 0
Distinct [] = Unit
Distinct (x ∷ xs) = Out x xs × Distinct xs

-- The links fit in words, and none stands at address 0.
abbrev pub Fit : ℕ → List Ptr → Type 0
Fit offset [] = Unit
Fit offset (x ∷ xs) = (0 < x + offset) × (x + offset < usize_mod) × Fit offset xs

-- The allocator holds the free objects `xs`, the next to be handed out first.
pub record Holds (a : PoolAllocator) (s : Store) (xs : List Ptr) : Type 0 where
  pub head : a.head ≡ first a.offset xs
  pub count : a.linked_count ≡ length xs
  pub chain : Chain a.offset s xs
  pub distinct : Distinct xs
  pub fit : Fit a.offset xs

Chain-write :
    (offset : ℕ) (s : Store) (xs : List Ptr) (p : Ptr) (v : Option Ptr)
    → Out p xs
    → Chain offset s xs
    → Chain offset (write s (p + offset) v) xs
Chain-write offset s [] p v out c = tt
Chain-write offset s (x ∷ xs) p v out c = (ground arith, Chain-write offset s xs p v out.1 c.1)

-- What `alloc_ptr` answers from the free objects `xs`.
abbrev pub Allocated : Store → PoolAllocator → List Ptr → Option Ptr × PoolAllocator → Type 0
Allocated s a [] (out, a') = (out ≡ none) × (a' ≡ a)
Allocated s a (x ∷ xs) (out, a') =
    (out ≡ some x) × Holds a' s xs × (a'.offset ≡ a.offset) × (a'.object_size ≡ a.object_size)

pub alloc_ptr_nil :
    (a : PoolAllocator) (s : Store) → a.linked_count ≡ 0 → alloc_ptr a s ≡ some (none, a)
unfolding alloc_ptr
alloc_ptr_nil a s h = ground arith

pub alloc_ptr_cons :
    (a : PoolAllocator) (s : Store) (e : Ptr)
    → 0 < a.linked_count
    → a.head ≡ some e
    → alloc_ptr a s
      ≡ some (
        some (sub_usize e a.offset),
        record a { head = s e; linked_count = sub_usize a.linked_count 1 },
      )
unfolding alloc_ptr
alloc_ptr_cons a s e h k = ground arith

-- `alloc_ptr` does not panic: it fails exactly when no object is free and then changes nothing, and
-- otherwise takes the object that was freed last.
pub alloc_ptr-Allocated :
    (a : PoolAllocator) (s : Store) (xs : List Ptr)
    → length xs < usize_mod
    → Holds a s xs
    → Returns (Allocated s a xs) (alloc_ptr a s)
alloc_ptr-Allocated a s [] small h = rw (alloc_ptr_nil a s h.count) (refl, refl)
alloc_ptr-Allocated a s (x ∷ xs) small h =
    let e : sub_usize (x + a.offset) a.offset ≡ x = omega arith in
    rw (alloc_ptr_cons a s (x + a.offset) (omega arith) h.head, e)
      (
        refl,
        record {
          head = h.chain.0;
          count = omega arith;
          chain = h.chain.1;
          distinct = h.distinct.1;
          fit = h.fit.2;
        },
        refl,
        refl,
      )

-- What `free_ptr` leaves after the free objects `xs`.
abbrev pub Freed : PoolAllocator → List Ptr → PoolAllocator × Store → Type 0
Freed a xs (a', s') = Holds a' s' xs × (a'.offset ≡ a.offset) × (a'.object_size ≡ a.object_size)

-- The object may be given back: it is not free, and its link is not at address 0.
pub record CanFree (a : PoolAllocator) (p : Ptr) (xs : List Ptr) : Type 0 where
  pub out : Out p xs
  pub not_null : 0 < p + a.offset
  pub in_word : p + a.offset < usize_mod
  pub room : length xs < usize_mod - 1

free_ptr_run :
    (a : PoolAllocator) (p : Ptr) (s : Store)
    → a.linked_count < usize_mod - 1
    → 0 < p + a.offset
    → p + a.offset < usize_mod
    → free_ptr a p s
      ≡ some (
        record a { head = some (p + a.offset); linked_count = a.linked_count + 1 },
        write s (p + a.offset) a.head,
      )
unfolding free_ptr
free_ptr_run a p s h k w =
    let e : add_usize p a.offset ≡ p + a.offset = omega arith in
    let c : add_usize a.linked_count 1 ≡ a.linked_count + 1 = omega arith in
    let n : (p + a.offset == 0) ≡ false = ground arith in
    let l : ltb a.linked_count (usize_mod - 1) ≡ true = ground arith in rw (e, c, n, l)

-- `free_ptr` does not panic on an object that may be given back, and puts it on top of the stack.
pub free_ptr-Freed :
    (a : PoolAllocator) (s : Store) (xs : List Ptr) (p : Ptr)
    → Holds a s xs
    → CanFree a p xs
    → Returns (Freed a (p ∷ xs)) (free_ptr a p s)
free_ptr-Freed a s xs p h c = rw (free_ptr_run a p s (omega arith) c.not_null c.in_word) (
  record {
    head = refl;
    count = omega arith;
    chain = (ground arith, Chain-write a.offset s xs p a.head c.out h.chain);
    distinct = (c.out, h.distinct);
    fit = (c.not_null, c.in_word, h.fit);
  },
  refl,
  refl,
)
