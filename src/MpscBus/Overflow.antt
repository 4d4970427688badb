-- ===== src/MpscBus/Overflow.antt =====
-- bus/mpsc_bus.hpp, `allocate`, in a region of nearly 4 GiB: its offsets are 32-bit words.
use deeplog.Base.{arith, some, ℕ, ◌+◌, ◌-◌, ◌<◌, ◌^◌, ◌≡◌, ◌≤◌}
use deeplog.MpscBus.{reserve}

-- If the end of the block, as a number, passes 2^32, the test against the end of the region sees
-- only what is left of it: the block is granted although it leaves the region, and the next head
-- goes to a small offset.
pub reserve_overflows :
    (e read_hand alloc_hand a : ℕ)
    → e < 2 ^ 32
    → a < 2 ^ 32
    → read_hand ≤ alloc_hand
    → alloc_hand + 4 < 2 ^ 32
    → 2 ^ 32 ≤ alloc_hand + 4 + a
    → alloc_hand + 4 + a < e + 2 ^ 32
    → (reserve e read_hand alloc_hand a ≡ some (alloc_hand + 4, alloc_hand + 4 + a - 2 ^ 32))
      × (e < alloc_hand + 4 + a)
unfolding reserve
reserve_overflows e r s a he ha hr hs over short = ground arith
