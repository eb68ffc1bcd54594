-- ===== src/Paging/Entry/Pml4e.antt =====
-- arch/x86_64/paging/pml4e.rs: the entries of the page map, which have no huge bit.
use methylenix.Base.{ℕ, ◌%◌, Bool, true, false, ◌==◌, if◌then◌else◌, Option, none, some}
use methylenix.Paging.Entry.{Entry, no_flags, set_user_accessible, set_writable, or_address, masked}

unfoldable pub init : Entry → Entry
init e = set_writable true (set_user_accessible true no_flags)

unfoldable pub is_address_set : Entry → Bool
is_address_set e = e.address_set

unfoldable pub set_address_set : Bool → Entry → Entry
set_address_set b e = record e { address_set = b }

unfoldable pub get_address : Entry → Option ℕ
unfolding is_address_set
get_address e = if is_address_set e then some e.address else none

unfoldable pub set_address : ℕ → Entry → Bool × Entry
unfolding set_address_set
set_address a e =
    if a % 4096 == 0 then (true, set_address_set true (or_address (masked 12 a) e)) else (false, e)
