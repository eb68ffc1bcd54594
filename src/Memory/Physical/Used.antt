-- ===== src/Memory/Physical/Used.antt =====
-- What `define_used_memory` does to the free areas.
use methylenix.Base.{
  ℕ, suc, ◌+◌, ◌-◌, ◌^◌, ◌≤◌, ◌<◌, ◌≡◌, refl, sym, true, false, not, ◌&&◌, some, List, [], ◌∷◌, leb,
  ltb, ◌==◌, if◌then◌else◌, arith, inl, inr, Bool-cases, ◌>>=◌, Returns, Returns->>=, sub_usize,
}
use methylenix.Memory.PageOrder.{from_offset-IsPageOrder}
use methylenix.Memory.Size.{from_address, to_end_address}
use methylenix.Memory.Physical.{
  MemoryEntry, PhysicalMemoryManager, Outcome, done, failed, Rest, nothing_left, one_left, two_left,
  no_rest, take_from, use_entry, define_used_unaligned, get_size, order_of, replace, is_only,
  search_entry_containing_address, define_used_memory, reserve_memory,
}
use methylenix.Memory.Physical.Areas.{
  Between, inside, covers, total, Member, Member-Between, Between-replace, covers-replace,
  total-replace, covers-Member, total-le,
}
use methylenix.Memory.Physical.FreeList.{
  IsListed, taken_out, put_in, IsListed-unchain, unchain_run, chain_new_run, IsListed-replace,
  rechain_run,
}
use methylenix.Memory.Physical.Take.{Fits, pieces, Left, take_from-Left}

-- The free areas follow one another below `2 ^ 63`, their sizes add up to `free_memory_size`, and the
-- free lists hold exactly them.
pub record IsManaged (m : PhysicalMemoryManager) : Type 0 where
  pub areas : Between 0 m.chain (2 ^ 63)
  pub counted : m.free_memory_size ≡ total m.chain
  pub listed : IsListed m.chain m.free_list

-- An area of at most `2 ^ 63` bytes has an order.
pub order_of_area :
    (e : MemoryEntry) → e.start ≤ e.end → e.end < 2 ^ 63 → (k : ℕ) × (order_of e ≡ some k)
unfolding order_of get_size from_address
order_of_area e h small =
    let size : get_size e ≡ some (e.end - e.start + 1) = ground arith in
    let (k, o, _) = from_offset-IsPageOrder (e.end - e.start + 1) 11 (omega arith) (omega arith) in
    (k, rw size o)

-- The manager after `size` bytes at `a` are in use.
abbrev pub UsedUp : PhysicalMemoryManager → ℕ → ℕ → Outcome (Unit {0}) → Type 0
UsedUp m a n (failed e) = ⊥
UsedUp m a n (done u m') =
    IsManaged m'
    × (m'.free_memory_size + n ≡ m.free_memory_size)
    × ((x : ℕ) → covers m'.chain x ≡ (covers m.chain x && not (inside a (a + n - 1) x)))

module _ (m : PhysicalMemoryManager) (e : MemoryEntry) (a n : ℕ) (v : IsManaged m)
    (member : Member e m.chain) where
  -- The entries `pieces r` have come into the place of `e`.
  used_up :
      (r : Rest) (lists : ℕ → List MemoryEntry) (pool : ℕ)
      → e.start ≤ a
      → a + n ≤ suc e.end
      → 0 < n
      → Left e a n r
      → IsListed (replace e.start (pieces r) m.chain) lists
      → UsedUp m a n (
          done tt (record m {
            free_memory_size = sub_usize m.free_memory_size n;
            chain = replace e.start (pieces r) m.chain;
            free_list = lists;
            memory_entry_pool = pool;
          }))
  used_up r lists pool from to pos left listed =
      let sum = total-replace e (pieces r) left.within 0 (2 ^ 63) m.chain v.areas member in
      let bound = total-le 0 (2 ^ 63) m.chain v.areas in
      let taken : sub_usize m.free_memory_size n + n ≡ m.free_memory_size =
        omega (arith, v.counted, left.counted) in
      (
        record {
          areas = Between-replace e (pieces r) left.within 0 (2 ^ 63) m.chain v.areas member;
          counted = omega (arith, v.counted, left.counted);
          listed = listed;
        },
        taken,
        λ x.
            uncovered_all x
              (covers-replace e (pieces r) left.within 0 (2 ^ 63) x m.chain v.areas member)
              (left.uncovered x),
      )
    where
      uncovered_all :
          (x : ℕ)
          → covers (replace e.start (pieces r) m.chain) x
            ≡ (if inside e.start e.end x then covers (pieces r) x else covers m.chain x)
          → covers (pieces r) x ≡ (inside e.start e.end x && not (inside a (a + n - 1) x))
          → covers (replace e.start (pieces r) m.chain) x
            ≡ (covers m.chain x && not (inside a (a + n - 1) x))
      uncovered_all x p q = elim (Bool-cases (inside e.start e.end x)) [
        | inl here ↦ rw (p, here, q, here, covers-Member e m.chain x member here) refl
        | inr other ↦
            let apart : inside a (a + n - 1) x ≡ false = ground arith in
            rw (p, other, apart) (ground arith)
      ]

  one-IsListed :
      (e' : MemoryEntry) (k k' : ℕ)
      → order_of e ≡ some k
      → order_of e' ≡ some k'
      → IsListed (replace e.start (e' ∷ []) m.chain) (put_in e' k' (taken_out e k m.free_list))
  one-IsListed e' k k' o o' =
      IsListed-replace 0 (2 ^ 63) e e' [] (e' ∷ []) m.chain _ k' v.areas member o'
        (λ g n. elim n [ inl x ↦ inl (sym x) | inr x ↦ absurd x ])
        (λ g n. elim n [ inl x ↦ inl (sym x) | inr x ↦ absurd x ])
        (IsListed-unchain 0 (2 ^ 63) e m.chain v.areas member m.free_list k v.listed o)

  use_entry-UsedUp :
      (r : Rest)
      → is_only m.chain ≡ false
      → e.start ≤ a
      → a + n ≤ suc e.end
      → 0 < n
      → Left e a n r
      → Returns (UsedUp m a n) (use_entry m e a n r)
  unfolding use_entry
  use_entry-UsedUp (no_rest x) more from to pos left = absurd (left.succeeds x refl)
  use_entry-UsedUp nothing_left more from to pos left =
      let bounds = Member-Between 0 (2 ^ 63) e m.chain v.areas member in
      let (k, o) = order_of_area e bounds.1 bounds.2 in
      rw (more, unchain_run e m.free_list k o)
        (used_up nothing_left _ _ from to pos left
          (IsListed-unchain 0 (2 ^ 63) e m.chain v.areas member m.free_list k v.listed o))
  use_entry-UsedUp (one_left e') more from to pos left =
      let bounds = Member-Between 0 (2 ^ 63) e m.chain v.areas member in
      let (k, o) = order_of_area e bounds.1 bounds.2 in
      let (k', o') = order_of_area e' left.within.1 (omega (arith, left.within)) in
      rw (rechain_run e e' m.free_list k k' o o')
        (used_up (one_left e') _ _ from to pos left (one-IsListed e' k k' o o'))
  use_entry-UsedUp (two_left e' f') more from to pos left =
      let bounds = Member-Between 0 (2 ^ 63) e m.chain v.areas member in
      let (k, o) = order_of_area e bounds.1 bounds.2 in
      let (k', o') = order_of_area e' left.within.1 (omega (arith, left.within)) in
      let (j, p) = order_of_area f' left.within.2.1 (omega (arith, left.within)) in
      rw
        (
          rechain_run e e' m.free_list k k' o o',
          chain_new_run f' (put_in e' k' (taken_out e k m.free_list)) j p,
        )
        (used_up (two_left e' f') _ _ from to pos left (
          IsListed-replace 0 (2 ^ 63) e f' (e' ∷ []) (e' ∷ f' ∷ []) m.chain _ j v.areas member p
            (λ g n. elim n [
              | inl x ↦ inr (inl x)
              | inr (inl x) ↦ inl (sym x)
              | inr (inr x) ↦ absurd x
            ])
            (λ g n. elim n [
              | inl x ↦ inr (inl (sym x))
              | inr (inl x) ↦ inl x
              | inr (inr x) ↦ absurd x
            ])
            (one-IsListed e' k k' o o')))

search_entry_Member :
    (lo hi a : ℕ) (e : MemoryEntry) (es : List MemoryEntry)
    → Between lo es hi
    → Member e es
    → e.start ≤ a
    → a ≤ e.end
    → search_entry_containing_address a es ≡ some e
unfolding search_entry_containing_address
search_entry_Member lo hi a e [] h m from to = absurd m
search_entry_Member lo hi a e (f ∷ fs) h (inl same) from to = rw same (ground arith)
search_entry_Member lo hi a e (f ∷ fs) h (inr there) from to =
    let apart = Member-Between (suc f.end) hi e fs h.2 there in
    let skip : (ltb f.start a && ltb f.end a) ≡ true = ground arith in
    rw skip (search_entry_Member (suc f.end) hi a e fs h.2 there from to)

-- A member is part of the free memory.
size-le : (e : MemoryEntry) (es : List MemoryEntry) → Member e es → e.end - e.start + 1 ≤ total es
size-le e [] m = absurd m
size-le e (f ∷ fs) (inl same) = rw same (omega arith)
size-le e (f ∷ fs) (inr there) = omega (arith, size-le e fs there)

take_and_use :
    (m : PhysicalMemoryManager) (e : MemoryEntry) (a n : ℕ)
    → IsManaged m
    → Member e m.chain
    → is_only m.chain ≡ false
    → 0 < m.memory_entry_pool
    → Fits a n e
    → Returns (UsedUp m a n) (take_from m.memory_entry_pool e a n >>= use_entry m e a n)
take_and_use m e a n v member more some_entry f =
    let bounds = Member-Between 0 (2 ^ 63) e m.chain v.areas member in
    Returns->>= (UsedUp m a n) (take_from m.memory_entry_pool e a n) (use_entry m e a n)
      (take_from-Left m.memory_entry_pool e a n some_entry bounds.2 f)
      (λ r left. use_entry-UsedUp m e a n v member r more f.from f.to f.some_size left)

-- In a managed state, the memory that stands in a free area and leaves no single byte beside it can be
-- reserved, if an entry is left in the pool and the area is not the only one: the free bytes are then those
-- that were free and are not reserved, `free_memory_size` has shrunk by the size, and the state is managed.
pub reserve_memory-UsedUp :
    (m : PhysicalMemoryManager) (e : MemoryEntry) (a n : ℕ)
    → IsManaged m
    → Member e m.chain
    → is_only m.chain ≡ false
    → 0 < m.memory_entry_pool
    → Fits a n e
    → Returns (UsedUp m a n) (reserve_memory m a n 0)
unfolding reserve_memory define_used_memory define_used_unaligned
reserve_memory-UsedUp m e a n v member more some_entry f =
    let fit = size-le e m.chain member in
    let some_size : (n == 0) ≡ false = ground (arith, f.some_size) in
    let enough : ltb m.free_memory_size n ≡ false = ground (arith, v.counted, f.to, f.from) in
    rw
      (
        some_size,
        enough,
        search_entry_Member 0 (2 ^ 63) a e m.chain v.areas member f.from
            (omega (arith, f.to, f.some_size)),
      )
      (take_and_use m e a n v member more some_entry f)

to_end_address-le :
    (n a : ℕ) (e : MemoryEntry)
    → 0 < n
    → a + n ≤ suc e.end
    → e.end < 2 ^ 63
    → leb (to_end_address n a) e.end ≡ true
unfolding to_end_address
to_end_address-le n a e pos to small = ground arith

-- `define_used_memory` with the entry given, as `alloc` calls it.
pub define_used_memory-UsedUp :
    (m : PhysicalMemoryManager) (e : MemoryEntry) (a n : ℕ)
    → IsManaged m
    → Member e m.chain
    → is_only m.chain ≡ false
    → 0 < m.memory_entry_pool
    → Fits a n e
    → Returns (UsedUp m a n) (define_used_memory m a n 0 (some e))
unfolding define_used_memory define_used_unaligned
define_used_memory-UsedUp m e a n v member more some_entry f =
    let fit = size-le e m.chain member in
    let bounds = Member-Between 0 (2 ^ 63) e m.chain v.areas member in
    let some_size : (n == 0) ≡ false = ground (arith, f.some_size) in
    let enough : ltb m.free_memory_size n ≡ false = ground (arith, v.counted, f.to, f.from) in
    let starts : leb e.start a ≡ true = ground (arith, f.from) in
    let ends : leb (to_end_address n a) e.end ≡ true =
      to_end_address-le n a e f.some_size f.to bounds.2 in
    rw (some_size, enough, starts, ends) (take_and_use m e a n v member more some_entry f)
