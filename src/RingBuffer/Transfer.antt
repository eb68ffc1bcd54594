-- ===== src/RingBuffer/Transfer.antt =====
-- What `write` of ring_buffer.rs does to the memory.
use methylenix.Base.{
  ℕ, ◌+◌, ◌-◌, ◌≤◌, ◌<◌, ◌≡◌, ◌≢◌, ◌⊎◌, ◌==◌, leb, ltb, true, false, refl, ◌∙◌, inl, inr,
  Bool-cases, if◌then◌else◌, add_usize, sub_usize, arith, usize_mod, min,
}
use native.Mathlib.Decide.{ℕ_discrete}
use native.Mathlib.Nat.{mod-eq_of_lt, mod-lt}
use methylenix.RingBuffer.{Ringbuffer, Memory, get_writable_size, write, copy, add_pointer}
use methylenix.RingBuffer.Sizes.{IsValid, get_writable_size-le}

-- The buffer of the ring stands in the address space, farther from its start than its size.
pub record IsPlaced (r : Ringbuffer) (buffer : ℕ) : Type 0 where
  pub valid : IsValid r
  pub high : r.size + r.size ≤ r.buffer
  pub ring_in : r.buffer + r.size + r.size ≤ usize_mod
  pub source_in : buffer + r.size ≤ usize_mod

-- The copies of a write of `n` bytes, `n` positive.
write_memory :
    (r : Ringbuffer) (buffer size : ℕ) (m : Memory)
    → min size (get_writable_size r) ≢ 0
    → let n = min size (get_writable_size r) in
      (write r buffer size m).2 ≡ (
        if leb (add_pointer r r.write_ptr n) r.write_ptr
        then copy
            (add_usize buffer (sub_usize r.buffer r.write_ptr))
            r.buffer
            (add_pointer r r.write_ptr n)
            (copy buffer
              (add_usize r.buffer r.write_ptr)
              (min (sub_usize r.buffer r.write_ptr) n)
              m)
        else copy buffer
            (add_usize r.buffer r.write_ptr)
            (min (sub_usize r.buffer r.write_ptr) n)
            m)
unfolding write
write_memory r buffer size m some_n =
    let e : (min size (get_writable_size r) == 0) ≡ false = ground arith in simp e

-- The words that these copies use, without their wrap.
words :
    (r : Ringbuffer) (buffer n : ℕ)
    → IsPlaced r buffer
    → n ≤ r.size
    → (add_usize r.buffer r.write_ptr ≡ r.buffer + r.write_ptr)
      × (min (sub_usize r.buffer r.write_ptr) n ≡ n)
words r buffer n p few = omega arith

write_nothing :
    (r : Ringbuffer) (buffer size : ℕ) (m : Memory)
    → min size (get_writable_size r) ≡ 0
    → (write r buffer size m).2 ≡ m
unfolding write
write_nothing r buffer size m nothing =
    let e : (min size (get_writable_size r) == 0) ≡ true = ground arith in simp e

add_pointer_bounds :
    (r : Ringbuffer) (n : ℕ)
    → IsValid r
    → n ≤ r.size
    → (add_pointer r r.write_ptr n < r.size)
      × (r.write_ptr + n < r.size → add_pointer r r.write_ptr n ≡ r.write_ptr + n)
unfolding add_pointer
add_pointer_bounds r n v few =
    let e : add_usize r.write_ptr n ≡ r.write_ptr + n = omega arith in
    rw e (mod-lt (r.write_ptr + n) v.some_size, λ h. mod-eq_of_lt h)

-- The byte at `to + k` after a copy, `k` below its count; and the bytes outside it.
copy_in :
    (from to count k : ℕ) (m : Memory) → k < count → copy from to count m (to + k) ≡ m (from + k)
copy_in from to count k m h =
    let e : to + k - to ≡ k = omega arith in
    let lo : leb to (to + k) ≡ true = ground arith in
    let hi : ltb (to + k) (to + count) ≡ true = ground arith in rw (lo, hi, e)

copy_out :
    (from to count a : ℕ) (m : Memory) → (a < to) ⊎ (to + count ≤ a) → copy from to count m a ≡ m a
copy_out from to count a m h = ground arith

-- A write that does not reach the end of the ring copies its bytes to the write pointer in order, and
-- changes no other byte.
pub write_inside :
    (r : Ringbuffer) (buffer size : ℕ) (m : Memory)
    → IsPlaced r buffer
    → r.write_ptr + min size (get_writable_size r) < r.size
    → let m' = (write r buffer size m).2 in
      ((i : ℕ)
        → i < min size (get_writable_size r)
        → m' (r.buffer + r.write_ptr + i) ≡ m (buffer + i))
      × ((a : ℕ)
          → (a < r.buffer + r.write_ptr)
            ⊎ (r.buffer + r.write_ptr + min size (get_writable_size r) ≤ a)
          → m' a ≡ m a)
write_inside r buffer size m p fits =
    let n : ℕ = min size (get_writable_size r) in
    let few : n ≤ r.size = omega (arith, get_writable_size-le r p.valid) in
    elim (ℕ_discrete n 0) [
      | yes nothing ↦
          rw (write_nothing r buffer size m nothing) (λ i h. absurd (omega arith), λ a h. refl)
      | no some_n ↦
          let (e1, e2) = words r buffer n p few in
          let e3 : add_pointer r r.write_ptr n ≡ r.write_ptr + n =
            (add_pointer_bounds r n p.valid few).1 fits in
          let on : leb (r.write_ptr + n) r.write_ptr ≡ false = ground arith in
          rw (write_memory r buffer size m some_n, e1, e2, e3, on)
            (
              λ i h. copy_in buffer (r.buffer + r.write_ptr) n i m h,
              λ a h. copy_out buffer (r.buffer + r.write_ptr) n a m h,
            )
    ]

-- A write that goes past the end of the ring overruns the buffer: it stores a byte of the source at
-- the address just behind the buffer.
pub write_overruns :
    (r : Ringbuffer) (buffer size : ℕ) (m : Memory)
    → IsPlaced r buffer
    → r.size < r.write_ptr + min size (get_writable_size r)
    → (write r buffer size m).2 (r.buffer + r.size) ≡ m (buffer + (r.size - r.write_ptr))
write_overruns r buffer size m p past =
    let n : ℕ = min size (get_writable_size r) in
    let few : n ≤ r.size = omega (arith, get_writable_size-le r p.valid) in
    let (e1, e2) = words r buffer n p few in
    let q : ℕ = add_pointer r r.write_ptr n in
    let below : q < r.size = (add_pointer_bounds r n p.valid few).0 in
    let at : r.buffer + r.size ≡ r.buffer + r.write_ptr + (r.size - r.write_ptr) = omega arith in
    let m1 : Memory = copy buffer (r.buffer + r.write_ptr) n m in
    let first : m1 (r.buffer + r.size) ≡ m (buffer + (r.size - r.write_ptr)) =
      rw at (copy_in buffer (r.buffer + r.write_ptr) n (r.size - r.write_ptr) m (omega arith)) in
    rw (write_memory r buffer size m (omega arith), e1, e2)
      (elim (Bool-cases (leb q r.write_ptr)) [
        | inl round ↦
            rw round (copy_out _ r.buffer q (r.buffer + r.size) m1 (inr (omega arith)) ∙ first)
        | inr on ↦ rw on first
      ])
