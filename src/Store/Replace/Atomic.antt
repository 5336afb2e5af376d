-- ===== src/Store/Replace/Atomic.antt =====
-- A replaced index is the old one or the new one at every moment.
use rag_cpp.Common.{
  ℕ, ◌≡◌, refl, ◌∙◌, ap, ◌⊎◌, inl, inr, Bool, true, false, Option, none, some, List, All,
}
use rag_cpp.Core.{Errc, Result}
use rag_cpp.Store.Container.{Container, serialize}
use rag_cpp.Store.Container.RoundTrip.{IsStorable, parse-serialize}
use rag_cpp.Store.Replace.{
  Files, Answers, Replaced, stored, replace_with, write_file, read_dest, read_file,
}

-- The destination is as it was, or it is the new file, whole and on the device.
abbrev pub IsOldOrNew : List ℕ → Files → Files → Type 0
IsOldOrNew blob old fs = (fs.dest ≡ old.dest) ⊎ (fs.dest ≡ stored blob)

abbrev pub IsAtomic : List ℕ → Files → Replaced → Type 0
IsAtomic blob old r =
    All (IsOldOrNew blob old) r.states
    × (((r.reply ≡ Result.value tt) × (r.final.dest ≡ stored blob))
        ⊎ ((r.reply ≡ Result.fail Errc.io_error) × (r.final.dest ≡ old.dest)))

replace_with-IsAtomic :
    (temp_opened : Bool) (failed_after : Option ℕ) (reopened fsynced renamed : Bool) (blob : List ℕ)
    (fs : Files)
    → IsAtomic blob fs (replace_with temp_opened failed_after reopened fsynced renamed blob fs)
unfolding replace_with
replace_with-IsAtomic false f r s n blob fs = ((inl refl, tt), inr (refl, refl))
replace_with-IsAtomic true (some k) r s n blob fs =
    ((inl refl, (inl refl, (inl refl, (inl refl, tt)))), inr (refl, refl))
replace_with-IsAtomic true none false s n blob fs =
    ((inl refl, (inl refl, (inl refl, (inl refl, tt)))), inr (refl, refl))
replace_with-IsAtomic true none true false n blob fs =
    ((inl refl, (inl refl, (inl refl, (inl refl, tt)))), inr (refl, refl))
replace_with-IsAtomic true none true true false blob fs =
    ((inl refl, (inl refl, (inl refl, (inl refl, (inl refl, tt))))), inr (refl, refl))
replace_with-IsAtomic true none true true true blob fs =
    ((inl refl, (inl refl, (inl refl, (inl refl, (inr refl, tt))))), inl (refl, refl))

-- Whatever the system answers to `write_file`, the destination is after each call the file that was
-- there or the new one, whole and on the device. On success it is the new one in the end, and on an
-- error the old one.
pub write_file-IsAtomic :
    (a : Answers) (c : Container) (fs : Files) → IsAtomic (serialize c) fs (write_file a c fs)
unfolding write_file
write_file-IsAtomic a c fs =
    replace_with-IsAtomic a.temp_opened a.failed_after a.reopened a.fsynced a.renamed (serialize c)
      fs

read_file-stored :
    (c : Container) (fs : Files)
    → IsStorable c
    → fs.dest ≡ stored (serialize c)
    → read_file fs ≡ Result.value c
unfolding read_file
read_file-stored c fs h e = ap read_dest e ∙ parse-serialize c h

-- A `write_file` of a container that fits the format reports success, and then `read_file` gives the
-- container; or it reports an i/o error, and then `read_file` answers as before.
pub read_file-write_file :
    (a : Answers) (c : Container) (fs : Files)
    → IsStorable c
    → (((write_file a c fs).reply ≡ Result.value tt)
        × (read_file (write_file a c fs).final ≡ Result.value c))
      ⊎ (((write_file a c fs).reply ≡ Result.fail Errc.io_error)
          × (read_file (write_file a c fs).final ≡ read_file fs))
unfolding read_file
read_file-write_file a c fs h = elim ((write_file-IsAtomic a c fs).1) [
  | inl k ↦ inl (k.0, read_file-stored c (write_file a c fs).final h k.1)
  | inr k ↦ inr (k.0, ap read_dest k.1)
]
