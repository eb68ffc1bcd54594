-- ===== src/Paging/Entry.antt =====
-- arch/x86_64/paging/{pte,pde,pdpte,pml4e}.rs: an entry is a word of 64 bits. The record names the
-- bits the kernel uses; `address` is bits 12 to 51 in their place, so that `|=` on the whole word is
-- `bit_or` on this field. Where only one of the four types has a bit, it is false in the others.
pub mod Pte
pub mod Pde
pub mod Pdpte
pub mod Pml4e
use Prim.Native.Nat.{bit_or, bitwise, bit_or-bitwise}
use methylenix.Base.{
  ℕ, zero, suc, ◌+◌, ◌*◌, ◌/◌, ◌%◌, ◌^◌, ◌≡◌, refl, sym, ◌∙◌, Bool, true, false, not, ◌==◌,
  if◌then◌else◌, Option, none, some, Panics, max,
}

pub record Entry : Type 0 where
  pub present : Bool
  pub writable : Bool
  pub user_accessible : Bool
  pub write_through : Bool
  pub cache_disabled : Bool
  pub accessed : Bool
  pub dirty : Bool
  pub huge : Bool
  pub global : Bool
  pub address_set : Bool
  pub no_execute : Bool
  pub address : ℕ

-- `flags = 0`
abbrev pub no_flags : Entry
no_flags = record {
  present = false;
  writable = false;
  user_accessible = false;
  write_through = false;
  cache_disabled = false;
  accessed = false;
  dirty = false;
  huge = false;
  global = false;
  address_set = false;
  no_execute = false;
  address = 0;
}

abbrev pub set_present : Bool → Entry → Entry
set_present b e = record e { present = b }

abbrev pub set_writable : Bool → Entry → Entry
set_writable b e = record e { writable = b }

abbrev pub set_user_accessible : Bool → Entry → Entry
set_user_accessible b e = record e { user_accessible = b }

abbrev pub set_no_execute : Bool → Entry → Entry
set_no_execute b e = record e { no_execute = b }

-- Bits `k` to 51 of a word, in their place.
abbrev pub masked : ℕ → ℕ → ℕ
masked k a = a % 2 ^ 52 / 2 ^ k * 2 ^ k

-- `flags |= address & mask`
abbrev pub or_address : ℕ → Entry → Entry
or_address a e = record e { address = bit_or e.address a }
