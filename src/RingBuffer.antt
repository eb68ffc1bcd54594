-- ===== src/RingBuffer.antt =====
-- kernel/collections/ring_buffer.rs: the byte ring of the sockets. The memory of the machine gives
-- the byte at each address; `p & (size - 1)`, with `size` a power of two, is `p % size`.
pub mod Sizes
pub mod Transfer
mod Tests
use methylenix.Base.{
  ℕ, zero, suc, ◌+◌, ◌-◌, ◌%◌, ◌^◌, ◌<◌, ◌≡◌, ◌&&◌, Bool, true, false, not, Option, none, some, ltb,
  leb, ◌==◌, if◌then◌else◌, Panics, ◌>>=◌, ◌>>◌, assert, add_usize, sub_usize, min,
}

abbrev pub Memory : Type 0
Memory = ℕ → ℕ

pub record Ringbuffer : Type 0 where
  pub buffer : ℕ
  pub size : ℕ
  pub write_ptr : ℕ
  pub read_ptr : ℕ

abbrev pub new : Ringbuffer
new = record { buffer = 0; size = 0; write_ptr = 0; read_ptr = 0 }

-- `usize::is_power_of_two`, tried with every exponent below `n`
abbrev pub is_power_below : ℕ → ℕ → Bool
is_power_below zero size = false
is_power_below (suc n) size = if size == 2 ^ n then true else is_power_below n size

unfoldable pub set_new_buffer : ℕ → ℕ → Ringbuffer → Panics Ringbuffer
set_new_buffer buffer size r = do
  assert (not (size == 0))
  assert (is_power_below 64 size)
  some (record { buffer = buffer; size = size; write_ptr = 0; read_ptr = sub_usize size 1 })

-- `unset_buffer`
unfoldable pub unset_buffer : Ringbuffer → Ringbuffer
unset_buffer r = new

-- `(pointer + value) & (size - 1)`: `set_new_buffer` asserts a power of two, for which this is the remainder.
unfoldable pub add_pointer : Ringbuffer → ℕ → ℕ → ℕ
add_pointer r p v = add_usize p v % r.size

unfoldable pub get_writable_size : Ringbuffer → ℕ
get_writable_size r =
    if r.read_ptr == r.write_ptr
    then 0
    else if ltb r.write_ptr r.read_ptr
    then add_usize (sub_usize r.read_ptr r.write_ptr) 1
    else sub_usize r.size (sub_usize (sub_usize r.write_ptr r.read_ptr) 1)

unfoldable pub get_readable_size : Ringbuffer → ℕ
unfolding get_writable_size
get_readable_size r = sub_usize r.size (get_writable_size r)

-- `copy_nonoverlapping(from, to, count)`
abbrev pub copy : ℕ → ℕ → ℕ → Memory → Memory
copy from to count m a = if leb to a && ltb a (to + count) then m (from + (a - to)) else m a

-- The size moved, the ring and the memory. The count of the first copy and the source of the second
-- use `self.buffer`, as the source does.
unfoldable pub write : Ringbuffer → ℕ → ℕ → Memory → ℕ × Ringbuffer × Memory
unfolding get_writable_size add_pointer
write r buffer size m =
    let n = min size (get_writable_size r) in
    if n == 0
    then (n, r, m)
    else let start = r.write_ptr in
      let write_ptr = add_pointer r r.write_ptr n in
      let m1 = copy buffer (add_usize r.buffer start) (min (sub_usize r.buffer start) n) m in
      let m2 =
        if leb write_ptr start
        then copy (add_usize buffer (sub_usize r.buffer start)) r.buffer write_ptr m1
        else m1 in
      (n, record r { write_ptr = write_ptr }, m2)

unfoldable pub read : Ringbuffer → ℕ → ℕ → Memory → ℕ × Ringbuffer × Memory
unfolding get_readable_size add_pointer
read r buffer size m =
    let n = min size (get_readable_size r) in
    if n == 0
    then (n, r, m)
    else let start = add_pointer r r.read_ptr 1 in
      let read_ptr = add_pointer r r.read_ptr n in
      let m1 = copy (add_usize r.buffer start) buffer (min (sub_usize r.buffer start) n) m in
      let m2 =
        if leb read_ptr start
        then copy r.buffer (sub_usize (add_usize buffer r.buffer) start) (read_ptr + 1) m1
        else m1 in
      (n, record r { read_ptr = read_ptr }, m2)
