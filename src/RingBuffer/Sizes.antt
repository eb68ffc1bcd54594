-- ===== src/RingBuffer/Sizes.antt =====
-- What the sizes of a ring say about its pointers.
use methylenix.Base.{
  ℕ, ◌+◌, ◌-◌, ◌%◌, ◌^◌, ◌≤◌, ◌<◌, ◌≡◌, arith, min, ap, refl, sym, ◌∙◌, ◌==◌, if◌then◌else◌,
  Bool-cases, inl, inr, add_usize,
}
use native.Mathlib.Nat.{mod-eq_of_lt, mod-eq-sub-mod, mod-add-mod, mod-lt}
use methylenix.RingBuffer.{
  Ringbuffer, get_writable_size, get_readable_size, add_pointer, write, Memory,
}

-- The pointers stand in the ring, and its size is that of a buffer in the address space.
pub record IsValid (r : Ringbuffer) : Type 0 where
  pub some_size : 0 < r.size
  pub in_word : r.size ≤ 2 ^ 63
  pub write_in : r.write_ptr < r.size
  pub read_in : r.read_ptr < r.size

-- The bytes between the read pointer and the write pointer.
abbrev pub stored : Ringbuffer → ℕ
stored r = (r.size + r.write_ptr - r.read_ptr - 1) % r.size

stored_lem :
    (s w r : ℕ)
    → w < s
    → r < s
    → (w ≤ r → (s + w - r - 1) % s ≡ s + w - r - 1) × (r < w → (s + w - r - 1) % s ≡ w - r - 1)
stored_lem s w r hw hr = (
  λ h. mod-eq_of_lt (omega arith),
  λ h. omega (
    arith,
    mod-eq-sub-mod {n = s + w - r - 1} {m = s} (omega arith),
    mod-eq_of_lt {n = s + w - r - 1 - s} {m = s} (omega arith),
  ),
)

-- In a ring of more than one byte, `get_readable_size` counts the stored bytes, but for one state: when
-- all bytes but one are stored it counts them all. The two sizes always add up to the size of the ring.
pub get_readable_size-eq-stored :
    (r : Ringbuffer)
    → IsValid r
    → 1 < r.size
    → (get_readable_size r ≡ (if stored r + 1 == r.size then r.size else stored r))
      × (get_readable_size r + get_writable_size r ≡ r.size)
unfolding get_readable_size
get_readable_size-eq-stored r v big =
    let lem = stored_lem r.size r.write_ptr r.read_ptr v.write_in v.read_in in
    (ground (arith, lem), ground arith)

-- Where the write pointer moves by `n`, so does the number of stored bytes.
stored_moved :
    (s w r n : ℕ)
    → w < s
    → r < s
    → n ≤ s
    → (s + (w + n) % s - r - 1) % s ≡ ((s + w - r - 1) % s + n) % s
stored_moved s w r n hw hr hn =
    let d : ℕ = s - r - 1 in
    let e1 : s + (w + n) % s - r - 1 ≡ (w + n) % s + d = omega arith in
    let e2 : s + w - r - 1 ≡ w + d = omega arith in
    let e3 : w + n + d ≡ w + d + n = omega arith in
    rw (e1, e2, mod-add-mod, mod-add-mod) (ap (λ (k : ℕ). k % s) e3)

-- The number of bytes that `write` takes, and its ring.
write_parts :
    (r : Ringbuffer) (buffer size : ℕ) (m : Memory)
    → let n = min size (get_writable_size r) in
      ((write r buffer size m).0 ≡ n)
      × ((write r buffer size m).1
          ≡ record r { write_ptr = if n == 0 then r.write_ptr else add_pointer r r.write_ptr n })
unfolding write
write_parts r buffer size m = elim (Bool-cases (min size (get_writable_size r) == 0)) [
  | inl nothing ↦ simp nothing (refl, refl)
  | inr something ↦ simp something (refl, refl)
]

pub get_writable_size-le : (r : Ringbuffer) → IsValid r → get_writable_size r ≤ r.size
unfolding get_writable_size
get_writable_size-le r v = ground arith

-- The pointer after a write, written without the word.
moved_pointer :
    (r : Ringbuffer) (n : ℕ)
    → IsValid r
    → n ≤ r.size
    → (if n == 0 then r.write_ptr else add_pointer r r.write_ptr n) ≡ (r.write_ptr + n) % r.size
unfolding add_pointer
moved_pointer r n v h = elim (Bool-cases (n == 0)) [
  | inl nothing ↦
      let e : r.write_ptr + n ≡ r.write_ptr = ground arith in
      rw (nothing, e) (sym (mod-eq_of_lt v.write_in))
  | inr something ↦
      let e : add_usize r.write_ptr n ≡ r.write_ptr + n = omega arith in rw something (rw e refl)
]

-- `write` takes the requested bytes or as many as are writable, keeps the ring valid, and moves the
-- write pointer by that number, so that the stored bytes grow by it modulo the size of the ring.
pub write-stored :
    (r : Ringbuffer) (buffer size : ℕ) (m : Memory)
    → IsValid r
    → let (n, r', m') = write r buffer size m in
      (n ≡ min size (get_writable_size r))
      × IsValid r'
      × (r'.read_ptr ≡ r.read_ptr)
      × (r'.size ≡ r.size)
      × (stored r' ≡ (stored r + n) % r.size)
write-stored r buffer size m v =
    let n : ℕ = min size (get_writable_size r) in
    let (count, ring) = write_parts r buffer size m in
    let few : n ≤ r.size = omega (arith, get_writable_size-le r v) in
    let moved : (write r buffer size m).1 ≡ record r { write_ptr = (r.write_ptr + n) % r.size } =
      ring ∙ ap (λ w. record r { write_ptr = w }) (moved_pointer r n v few) in
    rw (count, moved)
      (
        refl,
        record {
          some_size = v.some_size;
          in_word = v.in_word;
          write_in = mod-lt (r.write_ptr + n) v.some_size;
          read_in = v.read_in;
        },
        refl,
        refl,
        stored_moved r.size r.write_ptr r.read_ptr n v.write_in v.read_in few,
      )
