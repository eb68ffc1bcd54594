-- ===== src/Paging/Walk.antt =====
-- How the processor translates an address, independently of the code that makes the tables: four levels,
-- level 3 the page map, the entries read at the physical addresses that the levels above hold.
use methylenix.Base.{ℕ, zero, suc, ◌+◌, ◌*◌, ◌/◌, ◌%◌, ◌^◌, Bool, true, false, Option, none, some}
use methylenix.Paging.Entry.{Entry, masked}
use methylenix.Paging.State.{Memory, physical_address_to_direct_map}

-- The number of the entry at a level.
unfoldable pub index : ℕ → ℕ → ℕ
index zero va = va / 2 ^ 12 % 512
index (suc zero) va = va / 2 ^ 21 % 512
index (suc (suc zero)) va = va / 2 ^ 30 % 512
index (suc (suc (suc k))) va = va / 2 ^ 39 % 512

-- An entry of level 1 or 2 can map a large page; one of level 3 cannot.
abbrev pub ends : ℕ → Entry → Bool
ends zero e = true
ends (suc zero) e = e.huge
ends (suc (suc zero)) e = e.huge
ends (suc (suc (suc k))) e = false

abbrev pub child : Entry → ℕ
child e = physical_address_to_direct_map e.address

-- Whether the entry is present and whether the walk ends there, the entry, and what is below it.
abbrev pub chosen : Bool → Bool → Option (ℕ × Entry) → Option (ℕ × Entry) → Option (ℕ × Entry)
chosen false e here below = none
chosen true true here below = here
chosen true false here below = below

-- The entry that maps an address, with its level, from the table at `t` on.
unfoldable pub walk : ℕ → Memory → ℕ → ℕ → Option (ℕ × Entry)
walk zero mem t va =
    let e = mem (t + 8 * index zero va) in chosen e.present true (some (zero, e)) none
walk (suc k) mem t va =
    let e = mem (t + 8 * index (suc k) va) in
    chosen e.present (ends (suc k) e) (some (suc k, e)) (walk k mem (child e) va)

-- The physical address: the bits of the page in the entry, and the offset in the page.
abbrev pub target : ℕ → Option (ℕ × Entry) → Option (ℕ × Entry)
target va none = none
target va (some (zero, e)) = some (masked 12 e.address + va % 2 ^ 12, e)
target va (some (suc zero, e)) = some (masked 21 e.address + va % 2 ^ 21, e)
target va (some (suc (suc k), e)) = some (masked 30 e.address + va % 2 ^ 30, e)

unfoldable pub translate : Memory → ℕ → ℕ → Option (ℕ × Entry)
unfolding walk
translate mem pml4 va = target va (walk 3 mem pml4 va)
