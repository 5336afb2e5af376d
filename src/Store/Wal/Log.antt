-- ===== src/Store/Wal/Log.antt =====
-- The operations of the class `Wal` on an open file: src/store/wal.cpp. What the operating system
-- answers to each call is an argument: the answers of `write` in order, of `fsync`, of `fcntl` with
-- F_FULLFSYNC (`none` where the platform has none), of `open` and of `ftruncate`.
use rag_cpp.Common.{
  ℕ, ◌+◌, ◌%◌, ◌^◌, Bool, true, false, Option, some, List, [], ◌∷◌, ◌++◌, length, take, drop,
  if◌then◌else◌,
}
use rag_cpp.Core.{Errc, io_error, value, is_empty}
use rag_cpp.Store.Wal.{WalRecord, frame_of, Outcome, done, replay}

pub data SyncMode : Type 0 where
  none flush full : SyncMode

pub record Wal : Type 0 where
  pub fd : Option ℕ
  pub path : List ℕ
  pub mode : SyncMode
  pub bytes : ℕ

-- The file: its bytes, and the bytes that the device held after the last successful sync.
pub record Disk : Type 0 where
  pub content : List ℕ
  pub stable : List ℕ

-- One `write`: it took so many bytes, or it failed with EINTR or otherwise.
pub data WriteResult : Type 0 where
  wrote : ℕ → WriteResult
  interrupted failed : WriteResult

pub record Calls : Type 0 where
  pub writes : List WriteResult
  pub fsync : Bool
  pub fullfsync : Option Bool

-- How a call of the program ends; `crashed` is a stop before it returns.
pub data Reply : Type 0 where
  ok : Reply
  error : Errc → Reply
  crashed : Reply

unfoldable pub is_open : Wal → Bool
is_open w = elim w.fd [ Option.none ↦ false | some f ↦ true ]

unfoldable pub close : Wal → Wal
close w = record w { fd = Option.none; bytes = 0 }

-- `fd` is the answer of `open`.
unfoldable pub open_log : Option ℕ → List ℕ → SyncMode → Wal → Disk → Reply × Wal
unfolding close
open_log Option.none path mode w d = (error io_error, close w)
open_log (some f) path mode w d =
    (ok, record { fd = some f; path = path; mode = mode; bytes = length d.content })

unfoldable pub sync_ok : SyncMode → Calls → Bool
sync_ok none c = true
sync_ok flush c = c.fsync
sync_ok full c = elim c.fullfsync [ Option.none ↦ c.fsync | some b ↦ if b then true else c.fsync ]

-- The file after `sync_now`: without a flush nothing becomes stable.
unfoldable pub synced : SyncMode → Calls → Disk → Disk
unfolding sync_ok
synced none c d = d
synced flush c d = if sync_ok flush c then record d { stable = d.content } else d
synced full c d = if sync_ok full c then record d { stable = d.content } else d

-- The loop over `write`: what is left of the buffer, and the file. Where the answers end before the
-- buffer does, the program stopped there.
unfoldable pub write_all : List WriteResult → List ℕ → List ℕ → Reply × List ℕ
write_all ws [] file = (ok, file)
write_all [] (b ∷ buf) file = (crashed, file)
write_all (wrote n ∷ ws) (b ∷ buf) file = write_all ws (drop n (b ∷ buf)) (file ++ take n (b ∷ buf))
write_all (interrupted ∷ ws) (b ∷ buf) file = write_all ws (b ∷ buf) file
write_all (failed ∷ ws) (b ∷ buf) file = (error io_error, file)

abbrev pub finish : Calls → ℕ → Wal → Disk → Reply → Reply × Wal × Disk
finish c size w d ok =
    if sync_ok w.mode c
    then (ok, record w { bytes = (w.bytes + size) % 2 ^ 64 }, synced w.mode c d)
    else (error io_error, w, d)
finish c size w d (error e) = (error e, w, d)
finish c size w d crashed = (crashed, w, d)

-- The write loop, the sync and the count of bytes, which `append` and `append_batch` share.
unfoldable pub write_out : Calls → List ℕ → Wal → Disk → Reply × Wal × Disk
unfolding write_all
write_out c buf w d =
    let (r, file) = write_all c.writes buf d.content in
    finish c (length buf) w (record d { content = file }) r

unfoldable pub append : Calls → WalRecord → Wal → Disk → Reply × Wal × Disk
unfolding is_open write_out
append c rec w d = if is_open w then write_out c (frame_of rec) w d else (error io_error, w, d)

unfoldable pub frames_of : List WalRecord → List ℕ
frames_of [] = []
frames_of (r ∷ rs) = frame_of r ++ frames_of rs

unfoldable pub append_batch : Calls → List WalRecord → Wal → Disk → Reply × Wal × Disk
unfolding is_open write_out frames_of
append_batch c recs w d =
    if is_open w
    then (if is_empty recs then (ok, w, d) else write_out c (frames_of recs) w d)
    else (error io_error, w, d)

-- `truncated` is whether `ftruncate` succeeded.
unfoldable pub truncate : Bool → Calls → Wal → Disk → Reply × Wal × Disk
unfolding is_open
truncate truncated c w d =
    let d' = record d { content = [] } in
    if is_open w
    then (if truncated
        then (if sync_ok w.mode c
            then (ok, record w { bytes = 0 }, synced w.mode c d')
            else (error io_error, w, d'))
        else (error io_error, w, d))
    else (error io_error, w, d)

-- `replay(path)`: a file that is not there has no records.
unfoldable pub replay_file : Option (List ℕ) → Outcome
replay_file Option.none = done (value [])
replay_file (some blob) = replay blob
