-- ===== src/Tests/Store.antt =====
-- The container and the log at concrete inputs.
use rag_cpp.Common.{
  ℕ, ◌+◌, ◌%◌, ◌^◌, ◌<◌, ◌≤◌, ◌≡◌, refl, true, Option, List, [], ◌∷◌, ◌++◌, ◌⊎◌, inl, length, take,
  arith, false,
}
use rag_cpp.Core.{bytes, value, io_error, fail}
use rag_cpp.Store.Format.{le_bytes}
use rag_cpp.Store.Container.{Container, serialize, parse}
use rag_cpp.Store.Container.RoundTrip.{IsStorable, parse-serialize}
use rag_cpp.Store.Container.Bounds.{IsAccepted, parse_sound}
use rag_cpp.Store.Replace.{Files, Answers, stored, write_file, read_file}
use rag_cpp.Store.Wal.Survival.{intact, grown}
use rag_cpp.Store.Replace.Atomic.{IsAtomic, write_file-IsAtomic, read_file-write_file}
use rag_cpp.Store.Wal.{
  WalRecord, add_document, remove_document, encode, decode, frame_of, replay, done, record_magic,
}
use rag_cpp.Store.Wal.Frame.{IsValid, decode-encode}
use rag_cpp.Store.Wal.Replay.{frames, complete, replay-take}
use rag_cpp.Store.Wal.Log.{
  flush, Wal, Disk, wrote, failed, Calls, ok, error, is_open, append, append_batch, write_out,
  write_all, frames_of, sync_ok,
}
use rag_cpp.Store.Wal.Crash.{Holds, append_batch-crash}
use rag_cpp.Store.Wal.Acks.{append_ok, appends, records, append_batch-appends}
use rag_cpp.Store.Wal.Torn.{torn_append_loses_next}

abbrev one_section : Container
one_section = record { sections = (5, 1 ∷ 2 ∷ []) ∷ []; flags = 3; major = 1; minor = 1 }

one_section-IsStorable : IsStorable one_section
one_section-IsStorable = record {
  sorted = (tt, tt);
  tags = (omega arith, tt);
  flags_fit = omega arith;
  major_known = refl;
  minor_fit = omega arith;
  count_fit = omega arith;
  size_fit = omega arith;
}

parse-serialize_example : parse (serialize one_section) ≡ value one_section
parse-serialize_example = parse-serialize one_section one_section-IsStorable

parse_sound_example : IsAccepted (serialize one_section) one_section
parse_sound_example =
    parse_sound (serialize one_section) one_section
      (parse-serialize one_section one_section-IsStorable)

abbrev note : WalRecord
note = record {
  op = add_document;
  uri = bytes "a";
  title = [];
  text = bytes "hi";
  meta = (bytes "k", bytes "v") ∷ [];
  doc_id = 0;
}

abbrev removal : WalRecord
removal = record { op = remove_document; uri = []; title = []; text = []; meta = []; doc_id = 7 }

note-IsValid : IsValid note
unfolding encode le_bytes
note-IsValid = record { fits = omega arith; sorted = (tt, tt); doc_id_fits = omega arith }

removal-IsValid : IsValid removal
unfolding encode le_bytes
removal-IsValid = record { fits = omega arith; sorted = tt; doc_id_fits = omega arith }

decode-encode_example : decode (encode note) ≡ Option.some note
decode-encode_example = decode-encode note note-IsValid

replay-take_example :
    replay (take 50 (frames (note ∷ removal ∷ [])))
    ≡ done (value (take (complete 50 (note ∷ removal ∷ [])) (note ∷ removal ∷ [])))
replay-take_example = replay-take 50 (note ∷ removal ∷ []) (note-IsValid, (removal-IsValid, tt))

abbrev log : Wal
log = record { fd = Option.some 3; path = bytes "wal"; mode = flush; bytes = 0 }

abbrev no_file : Disk
no_file = record { content = []; stable = [] }

abbrev all_well : Calls
all_well = record { writes = wrote 1000 ∷ []; fsync = true; fullfsync = Option.none }

-- A write of twenty bytes, and then a crash.
abbrev power_loss : Calls
power_loss = record { writes = wrote 20 ∷ []; fsync = true; fullfsync = Option.none }

no_file-Holds : Holds no_file []
no_file-Holds = record { content_eq = refl; stable_eq = refl }

power_loss-batch : length (append_batch power_loss (note ∷ removal ∷ []) log no_file).2.stable ≤ 20
unfolding append_batch write_out write_all is_open frames_of frame_of encode le_bytes
power_loss-batch = omega arith

power_loss-one : length (append power_loss note log no_file).2.stable ≤ 20
unfolding append write_out write_all is_open frame_of encode le_bytes
power_loss-one = omega arith

append_batch-crash_example :
    (k : ℕ) × (replay
        (take 20 (append_batch power_loss (note ∷ removal ∷ []) log no_file).2.content)
      ≡ done (value ([] ++ take k (note ∷ removal ∷ []))))
append_batch-crash_example =
    append_batch-crash power_loss [] (note ∷ removal ∷ []) log no_file
      (take 20 (append_batch power_loss (note ∷ removal ∷ []) log no_file).2.content) no_file-Holds
      (note-IsValid, (removal-IsValid, tt)) (intact (grown 20 power_loss-batch))

all_well-one : (append all_well note log no_file).0 ≡ ok
unfolding append write_out write_all is_open frame_of encode le_bytes sync_ok
all_well-one = refl

append_ok_example :
    Holds (append all_well note log no_file).2 ([] ++ note ∷ [])
    × ((append all_well note log no_file).1
        ≡ record log { bytes = (log.bytes + length (frame_of note)) % 2 ^ 64 })
append_ok_example = append_ok all_well log no_file [] note no_file-Holds (inl refl) all_well-one

abbrev two_appends : List (Calls × WalRecord)
two_appends = (all_well, note) ∷ (all_well, removal) ∷ []

all_well-batch : (append_batch all_well (records two_appends) log no_file).0 ≡ ok
unfolding append_batch write_out write_all is_open frames_of frame_of encode le_bytes sync_ok
all_well-batch = refl

all_well-appends : (appends two_appends log no_file).0 ≡ ok
unfolding appends append write_out write_all is_open frame_of encode le_bytes sync_ok
all_well-appends = refl

append_batch-appends_example :
    ((append_batch all_well (records two_appends) log no_file).2.content
      ≡ (appends two_appends log no_file).2.content)
    × ((append_batch all_well (records two_appends) log no_file).1
        ≡ (appends two_appends log no_file).1)
append_batch-appends_example =
    append_batch-appends all_well two_appends log no_file (omega arith) all_well-batch
      all_well-appends

log-open : is_open log ≡ true
unfolding is_open
log-open = refl

-- A write of four bytes, and then an error.
abbrev disk_full : Calls
disk_full = record { writes = wrote 4 ∷ failed ∷ []; fsync = true; fullfsync = Option.none }

removal-small : length (frame_of removal) < record_magic
unfolding frame_of encode le_bytes
removal-small = omega arith

later-ok :
    (append all_well removal
      (append disk_full note log no_file).1
      (append disk_full note log no_file).2).0
    ≡ ok
unfolding append write_out write_all is_open frame_of encode le_bytes sync_ok
later-ok = refl

torn_append_loses_next_example :
    ((append disk_full note log no_file).0 ≡ error io_error)
    × (replay
          (append all_well removal
            (append disk_full note log no_file).1
            (append disk_full note log no_file).2).2.content
        ≡ done (value []))
torn_append_loses_next_example =
    torn_append_loses_next disk_full all_well [] [] note removal log no_file no_file-Holds tt
      log-open refl removal-small later-ok

abbrev old_index : Files
old_index = record { dest = stored (bytes "old"); temp = Option.none }

-- Every call succeeds but the rename.
abbrev no_rename : Answers
no_rename = record {
  temp_opened = true;
  failed_after = Option.none;
  reopened = true;
  fsynced = true;
  renamed = false;
}

write_file-IsAtomic_example :
    IsAtomic (serialize one_section) old_index (write_file no_rename one_section old_index)
write_file-IsAtomic_example = write_file-IsAtomic no_rename one_section old_index

read_file-write_file_example :
    (((write_file no_rename one_section old_index).reply ≡ value tt)
      × (read_file (write_file no_rename one_section old_index).final ≡ value one_section))
    ⊎ (((write_file no_rename one_section old_index).reply ≡ fail io_error)
        × (read_file (write_file no_rename one_section old_index).final ≡ read_file old_index))
read_file-write_file_example =
    read_file-write_file no_rename one_section old_index one_section-IsStorable
