-- ===== src/Paging/Entry/Pte.antt =====
-- arch/x86_64/paging/pte.rs: the entries of a page table.
use methylenix.Base.{ℕ, ◌%◌, Bool, true, false, ◌==◌, if◌then◌else◌, Option, none, some}
use methylenix.Paging.Entry.{Entry, no_flags, set_present, or_address, masked}

unfoldable pub init : Entry → Entry
init e = no_flags

unfoldable pub get_address : Entry → Option ℕ
get_address e = if e.present then some e.address else none

unfoldable pub set_address : ℕ → Entry → Bool × Entry
set_address a e =
    if a % 4096 == 0 then (true, set_present true (or_address (masked 12 a) e)) else (false, e)
