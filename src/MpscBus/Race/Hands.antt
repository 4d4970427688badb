-- ===== src/MpscBus/Race/Hands.antt =====
-- bus/mpsc_bus.hpp, `allocate`: the arithmetic of read hands that were loaded some time ago.
use deeplog.Base.{arith, false, ℕ, ◌<◌, ◌≡◌, ◌≢◌, ◌⊎◌}
use deeplog.MpscBus.Queue.{next, used, Segment}
use deeplog.MpscBus.Queue.Extend.{Moves}

-- The allocation hand has not gone round past `hand` since the read hand stood there, where the
-- messages now reach from `read` to `alloc`.
abbrev pub Fresh : ℕ → ℕ → ℕ → Type 0
Fresh hand read alloc = (hand ≡ read) ⊎ ((used read alloc hand ≡ false) × (hand ≢ alloc))

-- An older hand is fresh for the reader if it is for a later one that is fresh itself.
pub Fresh-trans :
    (old hand read alloc : ℕ) → Fresh old hand alloc → Fresh hand read alloc → Fresh old read alloc
Fresh-trans o h r s f g = ground arith

-- What is granted against a fresh hand does not reach the read hand either.
pub Moves-Fresh :
    (hand read alloc stop : ℕ)
    → Fresh hand read alloc
    → Moves alloc stop hand
    → Moves alloc stop read
Moves-Fresh h r s t f m = ground arith

-- And a hand that is fresh stays so if the block does not reach it.
pub Fresh-Moves :
    (hand read alloc stop : ℕ)
    → Fresh hand read alloc
    → Moves alloc stop hand
    → Fresh hand read stop
Fresh-Moves h r s t f m = ground arith

pub Fresh-next : (e p a stop : ℕ) → stop < e → Segment e p a stop → Fresh p (next e p a) stop
Fresh-next e p a stop h s = ground arith
