-- ===== src/Paging/Entry/Pdpte.antt =====
-- arch/x86_64/paging/pdpte.rs: the entries of a page directory pointer table; a huge one maps 1 GiB.
use methylenix.Base.{
  ℕ, ◌%◌, Bool, true, false, not, ◌==◌, if◌then◌else◌, Option, none, some, Panics, ◌>>◌, assert,
}
use methylenix.Paging.Entry.{Entry, no_flags, set_user_accessible, set_writable, or_address, masked}

unfoldable pub init : Entry → Entry
init e = set_writable true (set_user_accessible true no_flags)

unfoldable pub is_address_set : Entry → Bool
is_address_set e = e.address_set

unfoldable pub set_address_set : Bool → Entry → Entry
set_address_set b e = record e { address_set = b }

unfoldable pub is_huge : Entry → Bool
is_huge e = e.huge

unfoldable pub set_huge : Bool → Entry → Panics Entry
set_huge b e = assert (not e.present) >> some (record e { huge = b })

unfoldable pub get_address : Entry → Option ℕ
unfolding is_address_set is_huge
get_address e =
    if is_address_set e
    then (if is_huge e then some (masked 30 e.address) else some e.address)
    else none

unfoldable pub set_address : ℕ → Entry → Bool × Entry
unfolding set_address_set is_huge
set_address a e =
    if a % 4096 == 0
    then (
      true,
      set_address_set true
          (if is_huge e then or_address (masked 30 a) e else or_address (masked 12 a) e),
    )
    else (false, e)
