-- ===== src/Store/Container/Bounds.antt =====
-- What `parse` guarantees of a container that it accepts, whatever the bytes.
use rag_cpp.Common.{
  ℕ, ◌+◌, ◌-◌, ◌≤◌, ◌≡◌, refl, sym, ◌∙◌, subst, List, [], ◌∷◌, arith, length, take, drop, All,
  Option, none, some, Bool-cases, inl, inr, ==_iff, ltb, ◌==◌,
}
use rag_cpp.Common.SortedMap.{insert_or_assign}
use rag_cpp.Core.{nat_order, value, text_eq_sound}
use rag_cpp.Store.Format.{magic, format_major, reader, Reader}
use rag_cpp.Store.Format.Ensures.{
  Ensures, >>=-Ensures, guard-Ensures, from_option-Ensures, pure-Ensures, read_bytes-eq_some,
  some_inj, no_value,
}
use rag_cpp.Store.Crc.{crc32}
use rag_cpp.Store.Container.{
  Container, Entry, parse, parse_fields, load_sections, out_of_bounds, body, stored_crc, to_result,
}

-- The payload is a slice of the file, in front of the trailer.
pub record IsSlice (blob : List ℕ) (s : ℕ × List ℕ) : Type 0 where
  pub off : ℕ
  pub len : ℕ
  pub inside : off + len ≤ length blob - 4
  pub slice : s.1 ≡ take len (drop off blob)

module _ {V : Type 0} (P : ℕ × V → Type 0) where
  All-insert_or_assign :
      (k : ℕ) (v : V) (m : List (ℕ × V))
      → P (k, v)
      → ((j : ℕ) → P (j, v))
      → All P m
      → All P (insert_or_assign nat_order k v m)
  unfolding insert_or_assign
  All-insert_or_assign k v [] h g a = (h, tt)
  All-insert_or_assign k v ((j, w) ∷ m) h g a =
      ground (arith, g j, All-insert_or_assign k v m h g a.1)

load_sections-IsSlice :
    (blob : List ℕ) (es : List Entry) (m : List (ℕ × List ℕ)) {m' : List (ℕ × List ℕ)}
    → load_sections blob es m ≡ some m'
    → All (IsSlice blob) m
    → All (IsSlice blob) m'
unfolding load_sections
load_sections-IsSlice blob [] m e a = subst (All (IsSlice blob)) (some_inj e) a
load_sections-IsSlice blob (x ∷ es) m e a = elim (Bool-cases (out_of_bounds (length blob - 4) x)) [
  | inl out ↦ absurd (no_value (rw out at e))
  | inr fits ↦
      let slice = λ (j : ℕ).
        let s : IsSlice blob (j, take x.len (drop x.off blob)) = record {
          off = x.off;
          len = x.len;
          inside = ground arith;
          slice = refl;
        } in
        s in
      load_sections-IsSlice blob es _ (rw fits at e)
        (All-insert_or_assign (IsSlice blob) x.tag _ m (slice x.tag) slice a)
]

-- What holds of a container that was read from `blob`.
pub record IsReadFrom (blob : List ℕ) (c : Container) : Type 0 where
  pub has_magic : take 8 blob ≡ magic
  pub major_known : c.major ≡ format_major
  pub slices : All (IsSlice blob) c.sections

parse_fields-Ensures : (blob : List ℕ) → Ensures (IsReadFrom blob) (parse_fields blob) (reader blob)
unfolding parse_fields
parse_fields-Ensures blob = >>=-Ensures _ _ _ _ λ m r e. guard-Ensures _ _ _ _ λ is_magic.
    >>=-Ensures _ _ _ _ λ major r e_major. >>=-Ensures _ _ _ _ λ minor r e_minor.
      guard-Ensures _ _ _ _ λ known. >>=-Ensures _ _ _ _ λ flags r e_flags.
        >>=-Ensures _ _ _ _ λ n r e_n. >>=-Ensures _ _ _ _ λ reserved r e_reserved.
          guard-Ensures _ _ _ _ λ room. >>=-Ensures _ _ _ _ λ entries r e_entries.
            from_option-Ensures _ _ _ _ λ sections loaded. pure-Ensures _ _ _ (record {
              has_magic =
                  sym (read_bytes-eq_some 8 (reader blob) m _ e).0 ∙ text_eq_sound m magic is_magic;
              major_known = (==_iff major format_major).0 known;
              slices = load_sections-IsSlice blob entries [] loaded tt;
            })

pub record IsAccepted (blob : List ℕ) (c : Container) : Type 0 where
  pub long : 32 ≤ length blob
  pub checksum : crc32 (body blob) ≡ stored_crc blob
  pub fields : IsReadFrom blob c

to_result-eq_value :
    {A : Type 0} (x : Option A × Reader) {a : A}
    → to_result x ≡ value a
    → (r : Reader) × (x ≡ (some a, r))
to_result-eq_value (none, r) e = cc
to_result-eq_value (some b, r) e = (r, cc)

-- If `parse` accepts a file as `c`, then the file has at least 32 bytes, its trailer is the checksum
-- of all that stands before it, it begins with the magic bytes, the major version is the reader's,
-- and every section of `c` is a slice of the file that ends before the trailer.
pub parse_sound : (blob : List ℕ) (c : Container) → parse blob ≡ value c → IsAccepted blob c
unfolding parse
parse_sound blob c e = elim (Bool-cases (ltb (length blob) 32)) [
  | inl short ↦ cc (rw short at e)
  | inr long ↦ elim (Bool-cases (crc32 (body blob) == stored_crc blob)) [
    | inl good ↦
        let (r, parsed) =
          to_result-eq_value (parse_fields blob (reader blob)) (rw (long, good) at e) in
        record {
          long = ground arith;
          checksum = (==_iff (crc32 (body blob)) (stored_crc blob)).0 good;
          fields = (parse_fields-Ensures blob).holds c r parsed;
        }
    | inr bad ↦ cc (rw (long, bad) at e)
  ]
]
