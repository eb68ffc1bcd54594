-- ===== src/RingBuffer/Tests.antt =====
-- The ring buffer on concrete rings.
use methylenix.Base.{◌+◌, ◌-◌, ◌%◌, ◌≡◌, refl, arith, min}
use methylenix.RingBuffer.{Ringbuffer, Memory, get_writable_size, get_readable_size, write}
use methylenix.RingBuffer.Sizes.{IsValid, stored, get_readable_size-eq-stored, write-stored}
use methylenix.RingBuffer.Transfer.{IsPlaced, write_overruns}

-- 16 bytes at 4096, of which 2 are stored; and with the pointers near the end.
abbrev ring : Ringbuffer
ring = record { buffer = 4096; size = 16; write_ptr = 2; read_ptr = 15 }

abbrev late_ring : Ringbuffer
late_ring = record { buffer = 4096; size = 16; write_ptr = 14; read_ptr = 11 }

abbrev bytes : Memory
bytes a = a % 256

ring-IsPlaced : IsPlaced ring 8192
ring-IsPlaced = record {
  valid = record {
    some_size = omega arith;
    in_word = omega arith;
    write_in = omega arith;
    read_in = omega arith;
  };
  high = omega arith;
  ring_in = omega arith;
  source_in = omega arith;
}

late_ring-IsPlaced : IsPlaced late_ring 8192
late_ring-IsPlaced = record {
  valid = record {
    some_size = omega arith;
    in_word = omega arith;
    write_in = omega arith;
    read_in = omega arith;
  };
  high = omega arith;
  ring_in = omega arith;
  source_in = omega arith;
}

late_ring_writable : get_writable_size late_ring ≡ 14
unfolding get_writable_size
late_ring_writable = refl

get_readable_size-eq-stored_example :
    (get_readable_size ring ≡ 2) × (get_readable_size ring + get_writable_size ring ≡ 16)
get_readable_size-eq-stored_example =
    get_readable_size-eq-stored ring ring-IsPlaced.valid (omega arith)

write-stored_example :
    let (n, r', m') = write ring 8192 4 bytes in
    (n ≡ min 4 (get_writable_size ring))
    × IsValid r'
    × (r'.read_ptr ≡ 15)
    × (r'.size ≡ 16)
    × (stored r' ≡ (stored ring + n) % 16)
write-stored_example = write-stored ring 8192 4 bytes ring-IsPlaced.valid

write_overruns_example : (write late_ring 8192 4 bytes).2 (4096 + 16) ≡ bytes (8192 + (16 - 14))
write_overruns_example =
    write_overruns late_ring 8192 4 bytes late_ring-IsPlaced (omega (arith, late_ring_writable))
