-- ===== src/Store/Wal/Crash.antt =====
-- What the log guarantees across crashes and failed writes.
use rag_cpp.Common.{
  ℕ, zero, suc, ◌+◌, ◌-◌, ◌≤◌, ◌≡◌, refl, ◌∙◌, sym, ap, ◌⊎◌, inl, inr, true, List, [], ◌∷◌, ◌++◌,
  length, take, drop, length-append, append_assoc, append-nil, arith, All, take-append-drop,
  take-append_ge, take-append_add, leb, if◌then◌else◌, Bool-cases, take-drop_add, take-take, min,
}
use rag_cpp.Core.{value, is_empty}
use rag_cpp.Store.Wal.{WalRecord, frame_of, Outcome, done, replay}
use rag_cpp.Store.Wal.Frame.{IsValid}
use rag_cpp.Store.Wal.Replay.{frames, complete, replay-take}
use rag_cpp.Store.Wal.Log.{
  SyncMode, flush, full, Wal, Disk, WriteResult, wrote, interrupted, failed, Calls, Reply, ok,
  error, crashed, is_open, sync_ok, synced, write_all, finish, write_out, append, frames_of,
  append_batch,
}
use rag_cpp.Store.Wal.Survival.{Intact, last_stable, grown, Survives, Survives-Intact}

-- However the writes go, the file grows by a front part of the buffer; if all is written, by all of it.
write_all_grows :
    (ws : List WriteResult) (buf file : List ℕ)
    → (n : ℕ) × ((write_all ws buf file).1 ≡ file ++ take n buf)
unfolding write_all
write_all_grows [] [] file = (0, sym (append-nil file))
write_all_grows (w ∷ ws) [] file = (0, sym (append-nil file))
write_all_grows [] (b ∷ buf) file = (0, sym (append-nil file))
write_all_grows (interrupted ∷ ws) (b ∷ buf) file = write_all_grows ws (b ∷ buf) file
write_all_grows (failed ∷ ws) (b ∷ buf) file = (0, sym (append-nil file))
write_all_grows (wrote k ∷ ws) (b ∷ buf) file =
    let (n, e) = write_all_grows ws (drop k (b ∷ buf)) (file ++ take k (b ∷ buf)) in
    (k + n, e ∙ append_assoc file _ _ ∙ ap (λ s. file ++ s) (take-drop_add k n (b ∷ buf)))

pub write_all_ok :
    (ws : List WriteResult) (buf file : List ℕ)
    → (write_all ws buf file).0 ≡ ok
    → (write_all ws buf file).1 ≡ file ++ buf
unfolding write_all
write_all_ok [] [] file e = sym (append-nil file)
write_all_ok (w ∷ ws) [] file e = sym (append-nil file)
write_all_ok [] (b ∷ buf) file e = cc
write_all_ok (interrupted ∷ ws) (b ∷ buf) file e = write_all_ok ws (b ∷ buf) file e
write_all_ok (failed ∷ ws) (b ∷ buf) file e = cc
write_all_ok (wrote k ∷ ws) (b ∷ buf) file e =
    write_all_ok ws (drop k (b ∷ buf)) (file ++ take k (b ∷ buf)) e
    ∙ append_assoc file _ _
    ∙ ap (λ s. file ++ s) (take-append-drop k (b ∷ buf))

pub frames_of-eq : (rs : List WalRecord) → frames_of rs ≡ frames rs
unfolding frames_of
frames_of-eq [] = refl
frames_of-eq (r ∷ rs) = ap (λ s. frame_of r ++ s) (frames_of-eq rs)

pub frames-append : (rs ts : List WalRecord) → frames (rs ++ ts) ≡ frames rs ++ frames ts
frames-append [] ts = refl
frames-append (r ∷ rs) ts =
    ap (λ s. frame_of r ++ s) (frames-append rs ts)
    ∙ sym (append_assoc (frame_of r) (frames rs) (frames ts))

-- The file holds the records that were acknowledged, and so does the device.
pub record Holds (d : Disk) (acked : List WalRecord) : Type 0 where
  pub content_eq : d.content ≡ frames acked
  pub stable_eq : d.stable ≡ frames acked

abbrev pub IsDurable : SyncMode → Type 0
IsDurable m = (m ≡ flush) ⊎ (m ≡ full)

-- What a call of `write_out` leaves in the file, whatever its answers.
pub record Grown (buf : List ℕ) (d d' : Disk) : Type 0 where
  pub count : ℕ
  pub content_eq : d'.content ≡ d.content ++ take count buf
  pub stable_or : (d'.stable ≡ d.stable) ⊎ (d'.stable ≡ d'.content)

synced-stable :
    (m : SyncMode) (c : Calls) (d : Disk)
    → ((synced m c d).content ≡ d.content)
      × (((synced m c d).stable ≡ d.stable) ⊎ ((synced m c d).stable ≡ d.content))
unfolding synced
synced-stable m c d = ground arith

finish-Grown :
    (c : Calls) (size n : ℕ) (w : Wal) (buf file : List ℕ) (d : Disk) (r : Reply)
    → file ≡ d.content ++ take n buf
    → Grown buf d (finish c size w (record d { content = file }) r).2
finish-Grown c size n w buf file d ok e = elim (Bool-cases (sync_ok w.mode c)) [
  | inl good ↦
      let (same, stable) = synced-stable w.mode c (record d { content = file }) in
      rw good (record { count = n; content_eq = same ∙ e; stable_or = ground (arith, same) })
  | inr bad ↦ rw bad (record { count = n; content_eq = e; stable_or = inl refl })
]
finish-Grown c size n w buf file d (error x) e = record {
  count = n;
  content_eq = e;
  stable_or = inl refl;
}
finish-Grown c size n w buf file d crashed e = record {
  count = n;
  content_eq = e;
  stable_or = inl refl;
}

write_out-Grown :
    (c : Calls) (buf : List ℕ) (w : Wal) (d : Disk) → Grown buf d (write_out c buf w d).2
unfolding write_out
write_out-Grown c buf w d =
    let (n, e) = write_all_grows c.writes buf d.content in
    finish-Grown c (length buf) n w buf (write_all c.writes buf d.content).1 d
      (write_all c.writes buf d.content).0 e

untouched-Grown : (buf : List ℕ) (d : Disk) → Grown buf d d
untouched-Grown buf d = record {
  count = 0;
  content_eq = sym (append-nil d.content);
  stable_or = inl refl;
}

append-Grown :
    (c : Calls) (rec : WalRecord) (w : Wal) (d : Disk)
    → Grown (frames (rec ∷ [])) d (append c rec w d).2
unfolding append
append-Grown c rec w d = elim (Bool-cases (is_open w)) [
  | inl o ↦ rw (o, append-nil) (write_out-Grown c (frame_of rec) w d)
  | inr o ↦ rw o (untouched-Grown _ d)
]

append_batch-Grown :
    (c : Calls) (recs : List WalRecord) (w : Wal) (d : Disk)
    → Grown (frames recs) d (append_batch c recs w d).2
unfolding append_batch
append_batch-Grown c recs w d = elim (Bool-cases (is_open w)) [
  | inl o ↦ rw o (batch recs)
  | inr o ↦ rw o (untouched-Grown _ d)
]
  where
    batch :
        (recs : List WalRecord)
        → Grown
            (frames recs)
            d
            (if is_empty recs then (ok, w, d) else write_out c (frames_of recs) w d).2
    batch [] = untouched-Grown _ d
    batch (r ∷ rs) = rw (← frames_of-eq (r ∷ rs)) (write_out-Grown c (frames_of (r ∷ rs)) w d)

complete-append :
    (acked recs : List WalRecord) (k : ℕ)
    → complete (length (frames acked) + k) (acked ++ recs) ≡ length acked + complete k recs
complete-append [] recs k = let e : 0 + k ≡ k = omega arith in rw e (omega arith)
complete-append (r ∷ acked) recs k =
    let n = length (frame_of r) in
    let e : length (frames (r ∷ acked)) + k - n ≡ length (frames acked) + k =
      omega (arith, length-append (frame_of r) (frames acked)) in
    let fits : leb n (length (frames (r ∷ acked)) + k) ≡ true =
      ground (arith, length-append (frame_of r) (frames acked)) in
    rw (fits, e) (rw (complete-append acked recs k) (omega arith))

replay_front :
    (acked recs : List WalRecord) (k : ℕ)
    → All IsValid (acked ++ recs)
    → replay (frames acked ++ take k (frames recs))
      ≡ done (value (acked ++ take (complete k recs) recs))
replay_front acked recs k v =
    let n = length (frames acked) + k in
    ap replay (
      sym (take-append_add (frames acked) (frames recs) k)
      ∙ ap (take n) (sym (frames-append acked recs)))
    ∙ replay-take n (acked ++ recs) v
    ∙ ap (λ j. done (value (take j (acked ++ recs)))) (complete-append acked recs k)
    ∙ ap (λ l. done (value l)) (take-append_add acked recs (complete k recs))

content_front :
    (acked : List WalRecord) (buf : List ℕ) (d d' : Disk)
    → Holds d acked
    → (g : Grown buf d d') → d'.content ≡ frames acked ++ take g.count buf
content_front acked buf d d' h g = g.content_eq ∙ ap (λ s. s ++ take g.count buf) h.content_eq

first_of_one :
    (acked : List WalRecord) (rec : WalRecord) (k : ℕ) {o : Outcome}
    → o ≡ done (value (acked ++ take k (rec ∷ [])))
    → (o ≡ done (value acked)) ⊎ (o ≡ done (value (acked ++ rec ∷ [])))
first_of_one acked rec zero e = inl (e ∙ ap (λ l. done (value l)) (append-nil acked))
first_of_one acked rec (suc zero) e = inr e
first_of_one acked rec (suc (suc k)) e = inr e

-- A front part of a file that grew is its stable part and a front part of the buffer.
Intact-front :
    (acked : List WalRecord) (buf blob : List ℕ) (d d' : Disk)
    → Holds d acked
    → Grown buf d d'
    → Intact d' blob
    → (k : ℕ) × (blob ≡ frames acked ++ take k buf)
Intact-front acked buf blob d d' h g last_stable = elim g.stable_or [
  | inl e ↦ (0, e ∙ h.stable_eq ∙ sym (append-nil (frames acked)))
  | inr e ↦ (g.count, e ∙ content_front acked buf d d' h g)
]
Intact-front acked buf blob d d' h g (grown m le) =
    let n = length (frames acked) in
    let size : n ≤ length d'.stable = elim g.stable_or [
      | inl e ↦ omega (arith, ap length (e ∙ h.stable_eq))
      | inr e ↦ omega (
        arith,
        ap length (e ∙ content_front acked buf d d' h g),
        length-append (frames acked) (take g.count buf),
      )
    ] in
    (
      min (m - n) g.count,
      ap (take m) (content_front acked buf d d' h g)
          ∙ take-append_ge m (frames acked) (take g.count buf) (omega arith)
          ∙ ap (λ s. frames acked ++ s) (take-take (m - n) g.count buf),
    )

-- Where the file and the device hold the frames of the records acknowledged before, and all records
-- are valid: take a group commit, whatever the system answers to it, and a stop of the machine in it
-- or after it that leaves a front part of the file with the stable bytes at least, or whole frames
-- and then, past the stable bytes, a last record of full length whose body its checksum refuses. What
-- is left replays to the records acknowledged before and then the first `k` of the group, for some
-- `k`: no acknowledged record is lost and no error is reported.
pub append_batch-crash :
    (c : Calls) (acked recs : List WalRecord) (w : Wal) (d : Disk) (blob : List ℕ)
    → Holds d acked
    → All IsValid (acked ++ recs)
    → Survives (append_batch c recs w d).2 blob
    → (k : ℕ) × (replay blob ≡ done (value (acked ++ take k recs)))
append_batch-crash c acked recs w d blob h v s =
    let (front, whole, same) = Survives-Intact _ blob s in
    let (k, e) =
      Intact-front acked (frames recs) front d _ h (append_batch-Grown c recs w d) whole in
    (complete k recs, same ∙ ap replay e ∙ replay_front acked recs k v)

-- Under the same conditions, whatever happens in an `append`, what survives replays to the records
-- acknowledged before, or to these and the new one.
pub append-crash :
    (c : Calls) (acked : List WalRecord) (rec : WalRecord) (w : Wal) (d : Disk) (blob : List ℕ)
    → Holds d acked
    → All IsValid (acked ++ rec ∷ [])
    → Survives (append c rec w d).2 blob
    → (replay blob ≡ done (value acked)) ⊎ (replay blob ≡ done (value (acked ++ rec ∷ [])))
append-crash c acked rec w d blob h v s =
    let (front, whole, same) = Survives-Intact _ blob s in
    let (k, e) =
      Intact-front acked (frames (rec ∷ [])) front d _ h (append-Grown c rec w d) whole in
    first_of_one acked rec (complete k (rec ∷ []))
      (same ∙ ap replay e ∙ replay_front acked (rec ∷ []) k v)
