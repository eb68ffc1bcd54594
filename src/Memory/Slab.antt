-- ===== src/Memory/Slab.antt =====
-- kernel/memory_manager/slab_allocator.rs: a pool that asks for four pages when it is empty.
-- The page allocator is not part of this component: it is a function of the rest of the kernel's
-- state, which gives the address of the pages or `none` for a `MemoryError`.
use methylenix.Base.{
  ℕ, zero, suc, ◌+◌, ◌-◌, ◌*◌, ◌/◌, ◌≤◌, ◌<◌, ◌≡◌, refl, Option, none, some, List, [], ◌∷◌, arith,
  ◌%◌, Panics, ◌>>=◌, Returns, Returns->>=, usize_mod, length, ◌∙◌, ap,
}
use mathlib.Core.Path.{subst}
use native.Mathlib.Nat.{add-zero, div-add-mod', mod-lt}
use methylenix.Memory.Order
use methylenix.Memory.PageOrder
use methylenix.Memory.Pool.{Ptr, ObjectType, PoolAllocator, Store, add_pool, alloc_ptr}
use methylenix.Memory.Pool.Stack.{alloc_ptr-Allocated, alloc_ptr_nil}
use methylenix.Memory.Pool.Grow.{Pool, objects, padding, add_pool-Pool}

-- What `alloc` returns: an object, a `MemoryError` of `alloc_pages!`, or no answer in the given
-- number of calls.
pub data Answer : Type 0 where
  object : Ptr → Answer
  memory_error : Answer
  no_answer : Answer

abbrev pub default_alloc_order : ℕ
default_alloc_order = 2

pages-size : PageOrder.to_offset default_alloc_order ≡ 16384
unfolding PageOrder.to_offset Order.to_offset
pages-size = refl

-- The objects of an area, the last one first.
objects-suc :
    (n size : ℕ) (p : Ptr) (xs : List Ptr)
    → objects (suc n) size p xs ≡ (p + n * size) ∷ objects n size p xs
objects-suc zero size p xs = ap (λ q. q ∷ xs) (omega arith)
objects-suc (suc n) size p xs =
    objects-suc n size (p + size) (p ∷ xs)
    ∙ ap (λ q. q ∷ objects n size (p + size) (p ∷ xs)) (omega arith)

length-objects :
    (n size : ℕ) (p : Ptr) (xs : List Ptr) → length (objects n size p xs) ≡ n + length xs
length-objects zero size p xs = omega arith
length-objects (suc n) size p xs = omega (arith, length-objects n size (p + size) (p ∷ xs))

some_object : (size : ℕ) → 0 < size → size ≤ 16384 → 16384 / size ≡ suc (16384 / size - 1)
some_object size h k = grind (arith, div-add-mod' 16384 size, mod-lt 16384 h)

few_objects : (size : ℕ) → 16384 / size ≤ 16384
few_objects size = omega arith

module _ {W : Type 0} (alloc_pages : ℕ → W → Option Ptr × W) (t : ObjectType) where
  abbrev pub State : Type 0
  State = PoolAllocator × Store × W

  -- `none` is the `MemoryError` of `alloc_pages!`.
  unfoldable pub grow_pool : State → Panics (Option State)
  grow_pool (a, s, w) =
      let (page, w') = alloc_pages default_alloc_order w in
      elim page [
        | none ↦ some none
        | some p ↦ do
          (a', s') ← add_pool t a p (PageOrder.to_offset default_alloc_order) s
          some (some (a', s', w'))
      ]

  -- `SlabAllocator::alloc`, which calls itself after it has grown the pool
  unfoldable pub alloc : ℕ → State → Panics (Answer × State)
  alloc zero st = some (no_answer, st)
  alloc (suc calls) (a, s, w) = do
    (out, a') ← alloc_ptr a s
    elim out [
      | some p ↦ some (object p, (a', s, w))
      | none ↦ do
        grown ← grow_pool (a', s, w)
        elim grown [ none ↦ some (memory_error, (a', s, w)) | some st ↦ alloc calls st ]
    ]

  -- An empty pool for objects of `size` bytes.
  abbrev pub Empty : ℕ → ℕ → PoolAllocator → Store → Type 0
  Empty size offset a s = Pool size offset [] (a, s)

  alloc_empty :
      (calls : ℕ) (a : PoolAllocator) (s : Store) (w : W)
      → alloc_ptr a s ≡ some (none, a)
      → alloc (suc calls) (a, s, w) ≡ (
          grow_pool (a, s, w) >>= λ grown. elim grown [
            | none ↦ some (memory_error, (a, s, w))
            | some st ↦ alloc calls st
          ])
  unfolding alloc
  alloc_empty calls a s w e = rw e

  -- The pool after it has grown holds the objects of the pages at `p`.
  abbrev pub Grown : ℕ → ℕ → Ptr → Option State → Type 0
  Grown size offset p none = ⊥
  Grown size offset p (some (a, s, w)) = Pool size offset (objects (16384 / size) size p []) (a, s)

  grow_none :
      (a : PoolAllocator) (s : Store) (w w' : W)
      → alloc_pages default_alloc_order w ≡ (none, w')
      → grow_pool (a, s, w) ≡ some none
  unfolding grow_pool
  grow_none a s w w' e = rw (e, grow_pool)

  -- Growing with the pages at an aligned `p` fills an empty pool with the objects that fit.
  grow-Pool :
      (size offset : ℕ) (a : PoolAllocator) (s : Store) (w w' : W) (p : Ptr)
      → Empty size offset a s
      → alloc_pages default_alloc_order w ≡ (some p, w')
      → 0 < size
      → 0 < p
      → p % t.align ≡ 0
      → p + 16384 + offset < usize_mod
      → Returns (Grown size offset p) (grow_pool (a, s, w))
  unfolding grow_pool
  grow-Pool size offset a s w w' p h e pos some_p aligned fits =
      let none_before : padding t p ≡ 0 = ground arith in
      let filled =
        add_pool-Pool t size offset a p 16384 s [] h tt some_p pos (omega arith) fits
          (omega arith) in
      let filled' : Returns (Pool size offset (objects (16384 / size) size (p + 0) []))
          (add_pool t a p 16384 s) =
        subst
          (λ k.
            Returns (Pool size offset (objects ((16384 - k) / size) size (p + k) []))
              (add_pool t a p 16384 s))
          none_before filled in
      let filled'' : Returns (Pool size offset (objects (16384 / size) size p []))
          (add_pool t a p 16384 s) =
        subst
          (λ r.
            Returns (Pool size offset (objects (16384 / size) size r [])) (add_pool t a p 16384 s))
          (add-zero p) filled' in
      rw (e, pages-size, grow_pool)
        (Returns->>= (Grown size offset p) (add_pool t a p 16384 s) _ filled'' λ (a', s') q. q)

  -- Where the page allocator fails, `alloc` on an empty pool reports it and the pool stays as it was.
  pub alloc-memory_error :
      (calls size offset : ℕ) (a : PoolAllocator) (s : Store) (w w' : W)
      → Empty size offset a s
      → alloc_pages default_alloc_order w ≡ (none, w')
      → alloc (suc calls) (a, s, w) ≡ some (memory_error, (a, s, w))
  alloc-memory_error calls size offset a s w w' (h, e_o, e_s) e =
      rw (alloc_empty calls a s w (alloc_ptr_nil a s h.count), grow_none a s w w' e)

  -- What `alloc` gives from the pages at `p`: the last object that fits, with those before it left.
  abbrev pub Served : ℕ → ℕ → Ptr → Answer × State → Type 0
  Served size offset p (r, (a, s, w)) =
      (r ≡ object (p + (16384 / size - 1) * size))
      × Pool size offset (objects (16384 / size - 1) size p []) (a, s)

  -- What an allocation from the free objects `x ∷ xs` gives.
  abbrev Taken : ℕ → ℕ → Ptr → List Ptr → Answer × State → Type 0
  Taken size offset x xs (r, (a, s, w)) = (r ≡ object x) × Pool size offset xs (a, s)

  alloc-Taken :
      (calls size offset : ℕ) (a : PoolAllocator) (s : Store) (w : W) (x : Ptr) (xs : List Ptr)
      → Pool size offset (x ∷ xs) (a, s)
      → length (x ∷ xs) < usize_mod
      → Returns (Taken size offset x xs) (alloc (suc calls) (a, s, w))
  unfolding alloc
  alloc-Taken calls size offset a s w x xs (h, e_o, e_s) few =
      Returns->>= (Taken size offset x xs) (alloc_ptr a s) _
        (alloc_ptr-Allocated a s (x ∷ xs) few h)
        λ (out, a') (e, h', f, g). rw e (refl, (h', f ∙ e_o, g ∙ e_s))

  alloc-Grown :
      (size offset : ℕ) (p : Ptr) (st : State)
      → 0 < size
      → size ≤ 16384
      → Grown size offset p (some st)
      → Returns (Served size offset p) (alloc 1 st)
  alloc-Grown size offset p (a, s, w) pos small held =
      let k : ℕ = 16384 / size - 1 in
      let e : 16384 / size ≡ suc k = some_object size pos small in
      let e' : objects (16384 / size) size p [] ≡ (p + k * size) ∷ objects k size p [] =
        ap (λ n. objects n size p []) e ∙ objects-suc k size p [] in
      let few : length ((p + k * size) ∷ objects k size p []) < usize_mod =
        omega (arith, length-objects k size p [], few_objects size) in
      alloc-Taken 0 size offset a s w (p + k * size) (objects k size p [])
        (subst (λ xs. Pool size offset xs (a, s)) e' held) few

  served :
      (size offset : ℕ) (p : Ptr) (a : PoolAllocator) (s : Store) (w : W)
      → 0 < size
      → size ≤ 16384
      → (g : Option State) → Grown size offset p g
      → Returns
          (Served size offset p)
          (elim g [ none ↦ some (memory_error, (a, s, w)) | some st ↦ alloc 1 st ])
  served size offset p a s w pos small none held = absurd held
  served size offset p a s w pos small (some st) held = alloc-Grown size offset p st pos small held

  -- On an empty pool whose objects fit into the four pages that the page allocator gives, `alloc` needs
  -- one call of itself: it returns the last object of the pages and leaves the others free.
  pub alloc-Served :
      (size offset : ℕ) (a : PoolAllocator) (s : Store) (w w' : W) (p : Ptr)
      → Empty size offset a s
      → alloc_pages default_alloc_order w ≡ (some p, w')
      → 0 < size
      → size ≤ 16384
      → 0 < p
      → p % t.align ≡ 0
      → p + 16384 + offset < usize_mod
      → Returns (Served size offset p) (alloc 2 (a, s, w))
  alloc-Served size offset a s w w' p h e pos small some_p aligned fits =
      rw (alloc_empty 1 a s w (alloc_ptr_nil a s (h.0).count)) (
        Returns->>= (Served size offset p) (grow_pool (a, s, w)) _
          (grow-Pool size offset a s w w' p h e pos some_p aligned fits)
          (served size offset p a s w pos small))
