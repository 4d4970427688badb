-- ===== src/MpscFile/Tests.antt =====
-- Runs of `mpsc_bus` and `recover_region` (bus/mpsc_bus.cpp), and their theorems at concrete files.
use deeplog.Base.{[], arith, ok, refl, true, ◌∷◌, ◌≡◌}
use mathlib.Core.List.{flatten}
use deeplog.SharedMemory.{load32, store32, write_bytes}
use deeplog.MpscBus.Queue.{ready}
use deeplog.MpscFile.Recover.{salvage, recover_region-salvage}
use deeplog.MpscFile.Loss.{recover_region-loses}
use deeplog.MpscBus.Tests.{
  second_granted, written, written-IsQueue, text, area, round_up, round_up-RoundsUp,
}
use deeplog.MpscFile.{recover_region, BackingFile, shared, CreateIo, mpsc_bus}
use deeplog.MpscFile.Create.{Made, mpsc_bus-Made}

abbrev all_succeed : CreateIo
all_succeed = record {
  lock_file = ok tt;
  truncate = ok tt;
  write_magic = ok tt;
  encode_info = ok tt;
  in_extent_range = λ n. true;
}

abbrev shared_file : BackingFile
shared_file = record { is_valid = true; is_writable = true; lock = shared }

mpsc_bus-Made_example :
    Made round_up round_up-RoundsUp shared_file 4 5000
      (mpsc_bus round_up all_succeed shared_file 4 5000 shared)
mpsc_bus-Made_example =
    mpsc_bus-Made round_up round_up-RoundsUp all_succeed shared_file 4 5000 shared refl

recover_region-salvage_example :
    flatten (recover_region round_up (λ bytes. true) 8128 written 8 0)
    ≡ salvage (λ bytes. true) (ready text ∷ [])
recover_region-salvage_example =
    recover_region-salvage round_up round_up-RoundsUp (λ bytes. true) 8128 area written 0 8
      (ready text ∷ []) (tt, tt) written-IsQueue

-- A message behind the released one was granted, and its head not written.
not_written : load32 written 8 ≡ 0xfefefefe
unfolding load32 store32 write_bytes
not_written = refl

recover_region-loses_example : recover_region round_up (λ bytes. true) 8128 written 16 0 ≡ []
recover_region-loses_example =
    recover_region-loses round_up round_up-RoundsUp (λ bytes. true) 8128 area (omega arith) written
      0 8 4 12 16 (ready text ∷ []) (tt, tt) written-IsQueue (omega arith) (omega arith)
      second_granted not_written
