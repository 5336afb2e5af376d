-- ===== src/Loaders/Zip/Written.antt =====
-- An archive of stored members, as an archiver writes it: the members behind their local headers, with
-- whatever fields, extra fields and comments they have, the directory, and the record at its end.
use rag_cpp.Common.{
  ℕ, suc, ◌+◌, ◌*◌, ◌/◌, ◌%◌, ◌^◌, ◌<◌, ◌≡◌, refl, ap, sym, ◌∙◌, true, some, List, [], ◌∷◌, ◌++◌,
  length, get_elem?, get_elem?-append, take, drop, arith, le→leb, ==_refl, length-append,
  append_assoc, append-nil, drop-append_add, take-append_length,
}
use rag_cpp.Store.Format.{le_bytes}
use rag_cpp.Loaders.Bits.{rd16, rd32}
use rag_cpp.Loaders.Huffman.{replicate}
use rag_cpp.Loaders.Zip.{
  ZipEntry, matches, local_mark, central_mark, end_mark, named, read_entry, entry_at, entries_loop,
}

-- A stored member, with the fields of its headers that the reader has no use for, the extra fields of
-- its two headers, and its comment.
pub record Member : Type 0 where
  pub name : List ℕ
  pub content : List ℕ
  pub extra : List ℕ
  pub central_extra : List ℕ
  pub comment : List ℕ
  pub made_by : ℕ
  pub version : ℕ
  pub flags : ℕ
  pub time : ℕ
  pub date : ℕ
  pub crc : ℕ
  pub disk : ℕ
  pub internal_attributes : ℕ
  pub external_attributes : ℕ

abbrev pub stamp : Member → List ℕ
stamp m = le_bytes 2 m.time ++ (le_bytes 2 m.date ++ le_bytes 4 m.crc)

abbrev pub sizes : Member → List ℕ
sizes m =
    le_bytes 4 (length m.content) ++ (le_bytes 4 (length m.content) ++ le_bytes 2 (length m.name))

-- The 30 bytes of a local header; the method is 0.
abbrev pub local_header : Member → List ℕ
local_header m =
    local_mark
    ++ (le_bytes 2 m.version
        ++ (le_bytes 2 m.flags
            ++ (le_bytes 2 0 ++ (stamp m ++ (sizes m ++ le_bytes 2 (length m.extra))))))

unfoldable pub local_member : Member → List ℕ
local_member m = local_header m ++ (m.name ++ (m.extra ++ m.content))

-- The 46 bytes of a header in the directory.
abbrev pub central_header : Member → ℕ → List ℕ
central_header m offset =
    central_mark
    ++ (le_bytes 2 m.made_by
        ++ (le_bytes 2 m.version
            ++ (le_bytes 2 m.flags
                ++ (le_bytes 2 0
                    ++ (stamp m
                        ++ (sizes m
                            ++ (le_bytes 2 (length m.central_extra)
                                ++ (le_bytes 2 (length m.comment)
                                    ++ (le_bytes 2 m.disk
                                        ++ (le_bytes 2 m.internal_attributes
                                            ++ (le_bytes 4 m.external_attributes
                                                ++ le_bytes 4 offset)))))))))))

unfoldable pub central_entry : Member → ℕ → List ℕ
central_entry m offset = central_header m offset ++ (m.name ++ (m.central_extra ++ m.comment))

unfoldable pub end_record : ℕ → ℕ → ℕ → List ℕ
end_record count cd_size cd_off =
    end_mark
    ++ (replicate 4 0
        ++ (le_bytes 2 count
            ++ (le_bytes 2 count ++ (le_bytes 4 cd_size ++ (le_bytes 4 cd_off ++ le_bytes 2 0)))))

unfoldable pub locals : List Member → List ℕ
locals [] = []
locals (m ∷ ms) = local_member m ++ locals ms

unfoldable pub centrals : ℕ → List Member → List ℕ
centrals offset [] = []
centrals offset (m ∷ ms) = central_entry m offset ++ centrals (offset + length (local_member m)) ms

unfoldable pub archive : List Member → List ℕ
unfolding locals centrals end_record
archive ms =
    locals ms
    ++ (centrals 0 ms ++ end_record (length ms) (length (centrals 0 ms)) (length (locals ms)))

abbrev pub entry_of : Member → ℕ → ZipEntry
entry_of m offset = record {
  name = m.name;
  offset = offset;
  comp_size = length m.content;
  uncomp_size = length m.content;
  method = 0;
}

unfoldable pub entries : ℕ → List Member → List ZipEntry
entries offset [] = []
entries offset (m ∷ ms) = entry_of m offset ∷ entries (offset + length (local_member m)) ms

module _ (front ys : List ℕ) where
  pub rd16-at :
      (k n a b : ℕ)
      → n ≡ length front + k
      → get_elem? ys k ≡ some a
      → get_elem? ys (suc k) ≡ some b
      → rd16 (front ++ ys) n ≡ some (a + 256 * b)
  unfolding rd16
  rd16-at k n a b e p q =
      rw (get_elem?-append front ys k n e ∙ p)
        (rw (get_elem?-append front ys (suc k) (n + 1) (omega (arith, e)) ∙ q) refl)

  pub rd32-at :
      (k n a b c d : ℕ)
      → n ≡ length front + k
      → get_elem? ys k ≡ some a
      → get_elem? ys (suc k) ≡ some b
      → get_elem? ys (suc (suc k)) ≡ some c
      → get_elem? ys (suc (suc (suc k))) ≡ some d
      → rd32 (front ++ ys) n ≡ some (a + 256 * b + 65536 * (c + 256 * d))
  unfolding rd32
  rd32-at k n a b c d e p q r s =
      rw (rd16-at k n a b e p q)
        (rw (rd16-at (suc (suc k)) (n + 2) c d (omega (arith, e)) r s) refl)

  pub matches-at :
      (n a b c d : ℕ)
      → n ≡ length front
      → get_elem? ys 0 ≡ some a
      → get_elem? ys 1 ≡ some b
      → get_elem? ys 2 ≡ some c
      → get_elem? ys 3 ≡ some d
      → matches (front ++ ys) n (a ∷ b ∷ c ∷ d ∷ []) ≡ some true
  unfolding matches
  matches-at n a b c d e p q r s = rw (get_elem?-append front ys 0 n (omega (arith, e)) ∙ p) (
      rw (get_elem?-append front ys 1 (n + 1) (omega (arith, e)) ∙ q) (
        rw (get_elem?-append front ys 2 (n + 1 + 1) (omega (arith, e)) ∙ r) (
          rw (get_elem?-append front ys 3 (n + 1 + 1 + 1) (omega (arith, e)) ∙ s)
            (rw (==_refl a) (rw (==_refl b) (rw (==_refl c) (rw (==_refl d) refl)))))))

pub two_bytes : (v : ℕ) → v < 2 ^ 16 → v % 256 + 256 * (v / 256 % 256) ≡ v
two_bytes v h = omega (arith, h)

pub four_bytes :
    (v : ℕ)
    → v < 2 ^ 32
    → v % 256
        + 256 * (v / 256 % 256)
        + 65536 * (v / 256 / 256 % 256 + 256 * (v / 256 / 256 / 256 % 256))
      ≡ v
four_bytes v h = omega (arith, h)

-- The sizes fit into their fields.
abbrev pub IsSmall : Member → Type 0
IsSmall m =
    (length m.name < 2 ^ 16)
    × (length m.content < 2 ^ 32)
    × (length m.extra < 2 ^ 16)
    × (length m.central_extra < 2 ^ 16)
    × (length m.comment < 2 ^ 16)

module _ (front rest : List ℕ) (m : Member) (offset : ℕ) where
  abbrev with_central : List ℕ
  with_central = central_entry m offset ++ rest

  central_name : take (length m.name) (drop (length front + 46) (front ++ with_central)) ≡ m.name
  unfolding central_entry le_bytes
  central_name =
      let tail = m.central_extra ++ m.comment in
      ap (take (length m.name)) (drop-append_add front with_central 46)
      ∙ (ap (take (length m.name)) (append_assoc m.name tail rest)
          ∙ take-append_length m.name (tail ++ rest))

  central_length :
      length (front ++ (central_entry m offset ++ rest))
      ≡ length front + 46 + length m.name + length m.central_extra + length m.comment + length rest
  unfolding central_entry le_bytes
  central_length = omega (
    arith,
    length-append front with_central,
    length-append (central_entry m offset) rest,
    length-append m.name (m.central_extra ++ m.comment),
    length-append m.central_extra m.comment,
  )

  central_marked : matches (front ++ with_central) (length front) central_mark ≡ some true
  unfolding central_entry le_bytes
  central_marked =
      matches-at front with_central (length front) b'P' b'K' 1 2 refl refl refl refl refl

  central_next :
      length front + (46 + length m.name + length m.central_extra + length m.comment)
      ≡ length (front ++ central_entry m offset)
  unfolding central_entry le_bytes
  central_next = omega (
    arith,
    length-append front (central_entry m offset),
    length-append m.name (m.central_extra ++ m.comment),
    length-append m.central_extra m.comment,
  )

  named-written :
      named
        (front ++ with_central)
        (length front)
        (record {
          name = [];
          offset = offset;
          comp_size = length m.content;
          uncomp_size = length m.content;
          method = 0;
        })
        (length m.name)
        (length m.central_extra)
        (length m.comment)
      ≡ some (entry_of m offset, length (front ++ central_entry m offset))
  named-written =
      rw
        (le→leb (length front + 46 + length m.name) (length (front ++ with_central))
          (omega (arith, central_length)))
        (rw central_name (rw central_next refl))

  read_entry-written :
      IsSmall m
      → offset < 2 ^ 32
      → read_entry (front ++ with_central) (length front)
        ≡ some (some (entry_of m offset, length (front ++ central_entry m offset)))
  unfolding read_entry central_entry le_bytes
  read_entry-written h k =
      let p = length front in
      let ys = with_central in
      rw (rd16-at front ys 10 (p + 10) 0 0 refl refl refl) (
        rw
          (rd32-at front ys 20 (p + 20) (length m.content % 256) (length m.content / 256 % 256)
              (length m.content / 256 / 256 % 256) (length m.content / 256 / 256 / 256 % 256) refl
              refl refl refl refl
            ∙ ap (λ (x : ℕ). some x) (four_bytes (length m.content) h.1))
          (rw
            (rd32-at front ys 24 (p + 24) (length m.content % 256) (length m.content / 256 % 256)
                (length m.content / 256 / 256 % 256) (length m.content / 256 / 256 / 256 % 256) refl
                refl refl refl refl
              ∙ ap (λ (x : ℕ). some x) (four_bytes (length m.content) h.1))
            (rw
              (rd16-at front ys 28 (p + 28) (length m.name % 256) (length m.name / 256 % 256) refl
                  refl refl
                ∙ ap (λ (x : ℕ). some x) (two_bytes (length m.name) h.0))
              (rw
                (rd16-at front ys 30 (p + 30) (length m.central_extra % 256)
                    (length m.central_extra / 256 % 256) refl refl refl
                  ∙ ap (λ (x : ℕ). some x) (two_bytes (length m.central_extra) h.3))
                (rw
                  (rd16-at front ys 32 (p + 32) (length m.comment % 256)
                      (length m.comment / 256 % 256) refl refl refl
                    ∙ ap (λ (x : ℕ). some x) (two_bytes (length m.comment) h.4))
                  (rw
                    (rd32-at front ys 42 (p + 42) (offset % 256) (offset / 256 % 256)
                        (offset / 256 / 256 % 256) (offset / 256 / 256 / 256 % 256) refl refl refl
                        refl refl
                      ∙ ap (λ (x : ℕ). some x) (four_bytes offset k))
                    (ap (λ o. some o) named-written)))))))

  entry_at-written :
      IsSmall m
      → offset < 2 ^ 32
      → entry_at (front ++ with_central) (length front)
        ≡ some (some (entry_of m offset, length (front ++ central_entry m offset)))
  unfolding entry_at
  entry_at-written h k =
      rw
        (le→leb (length front + 46) (length (front ++ with_central))
          (omega (arith, central_length)))
        (rw central_marked (read_entry-written h k))

-- Every member of the list, at its place, fits.
abbrev pub AllSmall : ℕ → List Member → Type 0
AllSmall offset [] = Unit
AllSmall offset (m ∷ ms) =
    IsSmall m × (offset < 2 ^ 32) × AllSmall (offset + length (local_member m)) ms

pub entries_loop-written :
    (ms : List Member) (offset : ℕ) (front rest : List ℕ) (out : List ZipEntry)
    → AllSmall offset ms
    → entries_loop (length ms) (front ++ (centrals offset ms ++ rest)) (length front) out
      ≡ some (out ++ entries offset ms)
unfolding entries_loop centrals entries
entries_loop-written [] offset front rest out h = ap (λ es. some es) (sym (append-nil out))
entries_loop-written (m ∷ ms) offset front rest out h =
    let next = offset + length (local_member m) in
    let later = centrals next ms ++ rest in
    rw (append_assoc (central_entry m offset) (centrals next ms) rest) (
      rw (entry_at-written front later m offset h.0 h.1) (
        rw (sym (append_assoc front (central_entry m offset) later)) (
          entries_loop-written ms next (front ++ central_entry m offset) rest
            (out ++ entry_of m offset ∷ []) h.2
          ∙ ap (λ es. some es) (append_assoc out (entry_of m offset ∷ []) (entries next ms)))))
