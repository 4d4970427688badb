-- ===== src/FileDatabase/Open.antt =====
-- core/file_database.cpp: the opening of a database, whose root file is checked or made.
use deeplog.Base.{
  Bool, List, Result, [], err, fail_if, false, if◌then◌else◌, length, not, ok, ok≢err, refl, suc,
  sym, true, zero, ℕ, ◌&&◌, ◌*◌, ◌==◌, ◌>>=◌, ◌>>◌, ◌∙◌, ◌∷◌, ◌≡◌,
}
use deeplog.Errc.{Errc, missing_data, invalid_file_database_header}
use deeplog.FileDatabase.{
  Contents, RootFile, Database, Write, written, FetchIo, fetch_content_impl, retire_to_storage,
}
use deeplog.FileDatabase.Storage.{Holds, streams_open}

-- `file_database_handle::magic`
abbrev pub magic : List ℕ
magic =
    0x82 ∷ 0x4e ∷ 0x0d ∷ 0x0a ∷ 0xab ∷ 0x7e ∷ 0x7b ∷ 0x64 ∷ 0x72 ∷ 0x6f ∷ 0x74 ∷ 0x7d ∷ 0x7e ∷ 0xbb
    ∷ 0x0a ∷ 0x1a ∷ 0xa0 ∷ []

-- Whether the bytes are the magic ones and zeros behind them.
unfoldable pub is_header : List ℕ → List ℕ → Bool
is_header [] [] = true
is_header [] (b ∷ bs) = b == 0 && is_header [] bs
is_header (m ∷ ms) [] = false
is_header (m ∷ ms) (b ∷ bs) = b == m && is_header ms bs

-- From the read of the coordination area.
unfoldable pub validate_magic : Result Errc (List ℕ) → Result Errc (Unit {0})
validate_magic read = do
  header ← read
  fail_if (not (length header == 2 * 4096)) missing_data
  fail_if (not (is_header magic header)) invalid_file_database_header

unfoldable pub zeros : ℕ → List ℕ
zeros zero = []
zeros (suc n) = 0 ∷ zeros n

-- The contents of a default-initialised handle.
abbrev pub no_contents : Contents
no_contents = record { revision = 0; record_containers = []; message_buses = [] }

-- A slot of the new root file: one of its four pages.
abbrev pub blank_root : RootFile
blank_root = record { even_slot = zeros 4096; odd_slot = zeros 4096 }

-- The results of the calls that the opening makes, and what it reads of the root file.
pub record OpenIo : Type 0 where
  pub open_root : Result Errc (Unit {0})
  pub open_directory : Result Errc (Unit {0})
  pub lock : Result Errc (Unit {0})
  pub maximum_extent : Result Errc ℕ
  pub header : Result Errc (List ℕ)
  pub fetch : FetchIo
  pub truncate : Result Errc (Unit {0})
  pub zero_fill : Result Errc (Unit {0})
  pub write_magic : Result Errc (Unit {0})
  pub write : Write

module _ (encode : Contents → List ℕ) (decode : List ℕ → Result Errc Contents) where
  -- The result, and the root file that is left.
  pub initialize_storage : OpenIo → RootFile → Contents → Result Errc (Unit {0}) × RootFile
  initialize_storage io root c =
      let retired = retire_to_storage encode decode io.write blank_root c in
      elim io.truncate [
        | err e ↦ (err e, root)
        | ok _ ↦ elim io.zero_fill [
          | err e ↦ (err e, blank_root)
          | ok _ ↦ elim io.write_magic [ err e ↦ (err e, blank_root) | ok _ ↦ retired ]
        ]
      ]

  -- The part of `file_database` that runs under the lock.
  pub load : OpenIo → ℕ → RootFile → Result Errc (Unit {0}) × Database
  load io extent root =
      let (fetched, c) = fetch_content_impl encode decode io.fetch root no_contents in
      let (made, f) = initialize_storage io root no_contents in
      if extent == 0
      then (made, record { contents = no_contents; root = f })
      else elim (validate_magic io.header) [
        | err e ↦ (err e, record { contents = no_contents; root = root })
        | ok _ ↦ (fetched, record { contents = c; root = root })
      ]

  pub file_database : OpenIo → RootFile → Result Errc (Unit {0}) × Database
  file_database io root =
      let opened = io.open_root >> (io.open_directory >> (io.lock >> io.maximum_extent)) in
      elim opened [
        | err e ↦ (err e, record { contents = no_contents; root = root })
        | ok extent ↦ load io extent root
      ]

-- No call fails.
abbrev pub no_failure : ℕ → List ℕ → OpenIo
no_failure extent header = record {
  open_root = ok tt;
  open_directory = ok tt;
  lock = ok tt;
  maximum_extent = ok extent;
  header = ok header;
  fetch = streams_open;
  truncate = ok tt;
  zero_fill = ok tt;
  write_magic = ok tt;
  write = written;
}

module _ (encode : Contents → List ℕ) (decode : List ℕ → Result Errc Contents) where
  -- Where no call fails, an empty root file is made into one that holds the empty contents, if a
  -- blank page does not decode.
  file_database-Holds :
      (header : List ℕ) (root : RootFile) (x : Errc)
      → decode (encode no_contents) ≡ ok no_contents
      → decode (zeros 4096) ≡ err x
      → let out = file_database encode decode (no_failure 0 header) root in
        (out.0 ≡ ok tt) × (out.1.contents ≡ no_contents) × Holds decode out.1.root no_contents
  unfolding file_database load initialize_storage retire_to_storage
  file_database-Holds header root x trip blank =
      (refl, refl, record { current = trip; older = λ d h. absurd (ok≢err (sym h ∙ blank)) })

-- `clone`: the results of `reopen` and `clone_to_path_handle`, and of the copy of the contents.
pub clone :
    Result Errc (Unit {0})
    → Result Errc (Unit {0})
    → Result Errc (Unit {0})
    → Database
    → Result Errc Database
clone reopened path copied db = do reopened; path; copied; ok db
