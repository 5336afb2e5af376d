-- ===== src/Store/Replace.antt =====
-- `Container::write_file` and `read_file` of src/store/container.cpp: an index file is replaced by
-- way of a temporary file. What the system answers to each call is an argument. The sync of the
-- directory and the sweep of old temporary files change neither file and are left out.
pub mod Atomic
use rag_cpp.Common.{ℕ, Bool, true, false, Option, none, some, List, [], ◌∷◌, take}
use rag_cpp.Core.{Errc, Result}
use rag_cpp.Store.Container.{Container, serialize, parse}

-- A file's bytes, and whether they are on the device.
pub record File : Type 0 where
  pub content : List ℕ
  pub on_device : Bool

-- The destination and the temporary file beside it.
pub record Files : Type 0 where
  pub dest : Option File
  pub temp : Option File

-- The answers of opening the temporary file, of writing to it (`some n` is a failure after `n`
-- bytes), of opening it again, of `fsync` and of the rename.
pub record Answers : Type 0 where
  pub temp_opened : Bool
  pub failed_after : Option ℕ
  pub reopened : Bool
  pub fsynced : Bool
  pub renamed : Bool

-- The answer of the call, the states of the files on the way, and the last.
pub record Replaced : Type 0 where
  pub reply : Result (Unit {0})
  pub states : List Files
  pub final : Files

abbrev pub with_temp : Option File → Files → Files
with_temp t fs = record { dest = fs.dest; temp = t }

abbrev pub given_up : List Files → Files → Replaced
given_up states fs = record { reply = Result.fail Errc.io_error; states = states; final = fs }

abbrev pub unsynced : List ℕ → Option File
unsynced bytes = some (record { content = bytes; on_device = false })

abbrev pub stored : List ℕ → Option File
stored bytes = some (record { content = bytes; on_device = true })

-- The calls in their order: open, write, open again, sync, rename.
unfoldable pub replace_with : Bool → Option ℕ → Bool → Bool → Bool → List ℕ → Files → Replaced
replace_with false failed_after reopened fsynced renamed blob fs = given_up (fs ∷ []) fs
replace_with true (some n) reopened fsynced renamed blob fs =
    given_up
      (fs
        ∷ with_temp (unsynced []) fs
        ∷ with_temp (unsynced (take n blob)) fs
        ∷ with_temp none fs
        ∷ [])
      (with_temp none fs)
replace_with true none false fsynced renamed blob fs =
    given_up
      (fs ∷ with_temp (unsynced []) fs ∷ with_temp (unsynced blob) fs ∷ with_temp none fs ∷ [])
      (with_temp none fs)
replace_with true none true false renamed blob fs =
    given_up
      (fs ∷ with_temp (unsynced []) fs ∷ with_temp (unsynced blob) fs ∷ with_temp none fs ∷ [])
      (with_temp none fs)
replace_with true none true true false blob fs =
    given_up
      (fs
        ∷ with_temp (unsynced []) fs
        ∷ with_temp (unsynced blob) fs
        ∷ with_temp (stored blob) fs
        ∷ with_temp none fs
        ∷ [])
      (with_temp none fs)
replace_with true none true true true blob fs =
    let done : Files = record { dest = stored blob; temp = none } in
    record {
      reply = Result.value tt;
      states =
          fs
          ∷ with_temp (unsynced []) fs
          ∷ with_temp (unsynced blob) fs
          ∷ with_temp (stored blob) fs
          ∷ done
          ∷ [];
      final = done;
    }

unfoldable pub write_file : Answers → Container → Files → Replaced
write_file a c fs =
    replace_with a.temp_opened a.failed_after a.reopened a.fsynced a.renamed (serialize c) fs

abbrev pub read_dest : Option File → Result Container
read_dest none = Result.fail Errc.io_error
read_dest (some f) = parse f.content

unfoldable pub read_file : Files → Result Container
read_file fs = read_dest fs.dest
