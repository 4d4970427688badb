-- ===== src/FileDatabase/Tests.antt =====
-- Runs of the file database (core/file_database.cpp), and its theorems at concrete contents.
use deeplog.Base.{
  List, Result, [], arith, erase_if, err, if◌then◌else◌, length, ltb, ok, ok-injective, refl, ℕ,
  ◌+◌, ◌-◌, ◌<◌, ◌==◌, ◌^◌, ◌∷◌, ◌≡◌, ◌≤◌,
}
use mathlib.Core.Path.{subst}
use deeplog.Errc.{Errc, bad}
use deeplog.FileDatabase.{
  erase_if, Contents, RootFile, Opening, created, file_exists, tidy, fetch_content_impl,
  RecordContainerMeta,
}
use deeplog.FileDatabase.Prune.{locked, Limits, prune_loop, locked_count, prune_loop-bound}
use deeplog.FileDatabase.Open.{zeros}
use deeplog.FileDatabase.Storage.{Holds, streams_open, fetch-Holds}

abbrev empty : ℕ → Contents
empty n = record { revision = n; record_containers = []; message_buses = [] }

-- A codec of contents without entries: one byte, the revision.
abbrev encode : Contents → List ℕ
encode c = c.revision ∷ []

decode : List ℕ → Result Errc Contents
decode [] = err bad
decode (n ∷ []) = ok (empty n)
decode (n ∷ m ∷ ns) = err bad

-- Revision 2 in the even slot, and 1 in the odd one.
abbrev root : RootFile
root = record { even_slot = 2 ∷ []; odd_slot = 1 ∷ [] }

root-Holds : Holds decode root (empty 2)
unfolding decode
root-Holds = record {
  current = refl;
  older = λ d h. subst (λ (x : Contents). x.revision < 2) (ok-injective h) (omega arith);
}

fetch-Holds_example :
    fetch_content_impl encode decode streams_open root (empty 0) ≡ (ok tt, tidy (empty 2))
fetch-Holds_example = fetch-Holds encode decode root (empty 2) (empty 0) root-Holds (omega arith)

-- The first five files exist.
abbrev taken : ℕ → Opening
taken rotation = if ltb rotation 19 then file_exists bad else created (ok tt)

abbrev container : ℕ → ℕ → RecordContainerMeta
container sink rotation = record {
  path = rotation ∷ [];
  byte_size = 5;
  sink_id = sink;
  rotation = rotation;
}

abbrev listed : List RecordContainerMeta
listed = container 13 4 ∷ container 0 6 ∷ container 0 7 ∷ []

abbrev one_file : Limits
one_file = record { max_files_to_keep = 1; global_size_limit = 2 ^ 30 }

prune_loop-bound_example :
    locked_count
        (λ x p. x)
        4096
        (λ p. locked (ok 5))
        one_file
        (prune_loop (λ x p. x) 4096 (λ p. locked (ok 5)) one_file 0 0 listed)
      + 0
    ≤ 2
prune_loop-bound_example =
    prune_loop-bound (λ x p. x) 4096 (λ p. locked (ok 5)) one_file 0 0 listed (omega arith)
      (omega arith)

-- A codec of contents with three containers or none: one byte, the revision and the list.
abbrev encode_list : Contents → List ℕ
encode_list c = (if length c.record_containers == 0 then c.revision else 100 + c.revision) ∷ []

decode_list : List ℕ → Result Errc Contents
decode_list [] = err bad
decode_list (n ∷ []) = ok (
    if ltb n 100
    then empty n
    else record { revision = n - 100; record_containers = listed; message_buses = [] })
decode_list (n ∷ m ∷ ns) = err bad

abbrev informed : Contents
informed = record { revision = 2; record_containers = listed; message_buses = [] }

-- The three containers in the even slot, and revision 1 without containers in the odd one.
abbrev listing : RootFile
listing = record { even_slot = 102 ∷ []; odd_slot = 1 ∷ [] }

blank_fails : decode (zeros 4096) ≡ err bad
unfolding decode zeros
blank_fails = refl
