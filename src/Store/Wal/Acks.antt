-- ===== src/Store/Wal/Acks.antt =====
-- What an acknowledged write has done, and what an earlier failed write does to it.
use rag_cpp.Common.{
  ℕ, ◌+◌, ◌%◌, ◌^◌, ◌<◌, ◌≡◌, refl, ◌∙◌, sym, ap, inl, inr, true, List, [], ◌∷◌, ◌++◌, length,
  length-append, append_assoc, append-nil, arith, Bool-cases,
}
use rag_cpp.Store.Wal.{WalRecord, frame_of}
use rag_cpp.Store.Wal.Replay.{frames}
use rag_cpp.Store.Wal.Log.{
  SyncMode, flush, full, Wal, Disk, Calls, Reply, ok, error, crashed, is_open, sync_ok, synced,
  write_all, finish, write_out, append, frames_of, append_batch,
}
use rag_cpp.Store.Wal.Crash.{Holds, IsDurable, write_all_ok, frames_of-eq, frames-append}

-- An acknowledged write: the buffer is in the file, and counted; with a flush it is stable.
pub record Committed (buf : List ℕ) (w w' : Wal) (d d' : Disk) : Type 0 where
  pub content_eq : d'.content ≡ d.content ++ buf
  pub wal_eq : w' ≡ record w { bytes = (w.bytes + length buf) % 2 ^ 64 }
  pub stable_eq : IsDurable w.mode → d'.stable ≡ d'.content

synced_ok :
    (m : SyncMode) (c : Calls) (d : Disk)
    → sync_ok m c ≡ true
    → ((synced m c d).content ≡ d.content) × (IsDurable m → (synced m c d).stable ≡ d.content)
unfolding synced
synced_ok SyncMode.none c d e = (refl, λ h. elim h [ inl f ↦ cc | inr f ↦ cc ])
synced_ok flush c d e = rw e (refl, λ h. refl)
synced_ok full c d e = rw e (refl, λ h. refl)

finish-Committed :
    (c : Calls) (buf : List ℕ) (w : Wal) (d d' : Disk) (r : Reply)
    → (r ≡ ok → d'.content ≡ d.content ++ buf)
    → (finish c (length buf) w d' r).0 ≡ ok
    → Committed buf w (finish c (length buf) w d' r).1 d (finish c (length buf) w d' r).2
finish-Committed c buf w d d' (error x) h e = cc
finish-Committed c buf w d d' crashed h e = cc
finish-Committed c buf w d d' ok h e = elim (Bool-cases (sync_ok w.mode c)) [
  | inl good ↦
      let (same, stable) = synced_ok w.mode c d' good in
      rw good
        (record { content_eq = same ∙ h refl; wal_eq = refl; stable_eq = λ m. stable m ∙ sym same })
  | inr bad ↦ cc (rw bad at e)
]

write_out-Committed :
    (c : Calls) (buf : List ℕ) (w : Wal) (d : Disk)
    → (write_out c buf w d).0 ≡ ok
    → Committed buf w (write_out c buf w d).1 d (write_out c buf w d).2
unfolding write_out
write_out-Committed c buf w d e =
    finish-Committed c buf w d _ (write_all c.writes buf d.content).0
      (write_all_ok c.writes buf d.content) e

module _ (c : Calls) (w : Wal) (d : Disk) where
  pub append-Committed :
      (rec : WalRecord)
      → (append c rec w d).0 ≡ ok
      → Committed (frame_of rec) w (append c rec w d).1 d (append c rec w d).2
  unfolding append
  append-Committed rec e = elim (Bool-cases (is_open w)) [
    | inl o ↦ rw o (write_out-Committed c (frame_of rec) w d (rw o at e))
    | inr o ↦ cc (rw o at e)
  ]

  -- Where the file and the device hold the frames of the records acknowledged before: a record that
  -- is acknowledged in a flushing mode is in the file and on the device, behind the
  -- records acknowledged before, and the count of bytes has grown by its frame.
  pub append_ok :
      (acked : List WalRecord) (rec : WalRecord)
      → Holds d acked
      → IsDurable w.mode
      → (append c rec w d).0 ≡ ok
      → Holds (append c rec w d).2 (acked ++ rec ∷ [])
        × ((append c rec w d).1 ≡ record w { bytes = (w.bytes + length (frame_of rec)) % 2 ^ 64 })
  append_ok acked rec h m e =
      let k = append-Committed rec e in
      let content : (append c rec w d).2.content ≡ frames (acked ++ rec ∷ []) =
        k.content_eq
        ∙ ap (λ s. s ++ frame_of rec) h.content_eq
        ∙ ap (λ s. frames acked ++ s) (sym (append-nil (frame_of rec)))
        ∙ sym (frames-append acked (rec ∷ [])) in
      (record { content_eq = content; stable_eq = k.stable_eq m ∙ content }, k.wal_eq)

-- One `append` for each record, with its own answers, as long as they succeed.
abbrev pub on_ok : Reply × Wal × Disk → (Wal → Disk → Reply × Wal × Disk) → Reply × Wal × Disk
on_ok (ok, w, d) k = k w d
on_ok (error x, w, d) k = (error x, w, d)
on_ok (crashed, w, d) k = (crashed, w, d)

unfoldable pub appends : List (Calls × WalRecord) → Wal → Disk → Reply × Wal × Disk
appends [] w d = (ok, w, d)
appends ((c, rec) ∷ rest) w d = on_ok (append c rec w d) (appends rest)

abbrev pub records : List (Calls × WalRecord) → List WalRecord
records [] = []
records ((c, rec) ∷ rest) = rec ∷ records rest

on_ok-eq_ok :
    (x : Reply × Wal × Disk) (k : Wal → Disk → Reply × Wal × Disk)
    → (on_ok x k).0 ≡ ok
    → (x.0 ≡ ok) × (on_ok x k ≡ k x.1 x.2)
on_ok-eq_ok (ok, w, d) k e = (refl, refl)
on_ok-eq_ok (error x, w, d) k e = cc
on_ok-eq_ok (crashed, w, d) k e = cc

appends-Written :
    (cs : List (Calls × WalRecord)) (w : Wal) (d : Disk)
    → w.bytes < 2 ^ 64
    → (appends cs w d).0 ≡ ok
    → ((appends cs w d).2.content ≡ d.content ++ frames (records cs))
      × ((appends cs w d).1
          ≡ record w { bytes = (w.bytes + length (frames (records cs))) % 2 ^ 64 })
unfolding appends
appends-Written [] w d b e = (
  sym (append-nil d.content),
  let same : w.bytes ≡ (w.bytes + 0) % 2 ^ 64 = omega arith in
      ap (λ n. record w { bytes = n }) same,
)
appends-Written ((c, rec) ∷ cs) w d b e =
    let (first, rest) = on_ok-eq_ok (append c rec w d) (appends cs) e in
    let k = append-Committed c w d rec first in
    let w' = (append c rec w d).1 in
    let d' = (append c rec w d).2 in
    let size : w'.bytes ≡ (w.bytes + length (frame_of rec)) % 2 ^ 64 =
      ap (λ (x : Wal). x.bytes) k.wal_eq in
    let total : ((w.bytes + length (frame_of rec)) % 2 ^ 64 + length (frames (records cs))) % 2 ^ 64
        ≡ (w.bytes + length (frames (rec ∷ records cs))) % 2 ^ 64 =
      omega (arith, length-append (frame_of rec) (frames (records cs))) in
    let (content, wal) = appends-Written cs w' d' (omega arith) (rw rest at e) in
    rw rest (
      content
          ∙ ap (λ s. s ++ frames (records cs)) k.content_eq
          ∙ append_assoc d.content (frame_of rec) (frames (records cs)),
      wal
          ∙ ap (λ (x : Wal). record x { bytes = (x.bytes + length (frames (records cs))) % 2 ^ 64 })
              k.wal_eq
          ∙ ap (λ n. record w { bytes = n }) total,
    )

append_batch-Written :
    (c : Calls) (recs : List WalRecord) (w : Wal) (d : Disk)
    → w.bytes < 2 ^ 64
    → (append_batch c recs w d).0 ≡ ok
    → ((append_batch c recs w d).2.content ≡ d.content ++ frames recs)
      × ((append_batch c recs w d).1
          ≡ record w { bytes = (w.bytes + length (frames recs)) % 2 ^ 64 })
unfolding append_batch
append_batch-Written c [] w d b e = elim (Bool-cases (is_open w)) [
  | inl o ↦ rw o (
    sym (append-nil d.content),
    let same : w.bytes ≡ (w.bytes + 0) % 2 ^ 64 = omega arith in
        ap (λ n. record w { bytes = n }) same,
  )
  | inr o ↦ cc (rw o at e)
]
append_batch-Written c (r ∷ rs) w d b e = elim (Bool-cases (is_open w)) [
  | inl o ↦
      let k = write_out-Committed c (frames_of (r ∷ rs)) w d (rw o at e) in
      rw (o, ← frames_of-eq (r ∷ rs)) (k.content_eq, k.wal_eq)
  | inr o ↦ cc (rw o at e)
]

-- Where a group commit and one append for each of its records both succeed, they leave the same
-- bytes in the file and the same object.
pub append_batch-appends :
    (c : Calls) (cs : List (Calls × WalRecord)) (w : Wal) (d : Disk)
    → w.bytes < 2 ^ 64
    → (append_batch c (records cs) w d).0 ≡ ok
    → (appends cs w d).0 ≡ ok
    → ((append_batch c (records cs) w d).2.content ≡ (appends cs w d).2.content)
      × ((append_batch c (records cs) w d).1 ≡ (appends cs w d).1)
append_batch-appends c cs w d b e f =
    let (content, wal) = append_batch-Written c (records cs) w d b e in
    let (content', wal') = appends-Written cs w d b f in (content ∙ sym content', wal ∙ sym wal')
