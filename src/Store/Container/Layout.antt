-- ===== src/Store/Container/Layout.antt =====
-- What `serialize` writes, as one right-nested list of bytes.
use rag_cpp.Common.{
  ℕ, ◌+◌, ◌*◌, ◌%◌, ◌^◌, ◌≡◌, refl, ◌∙◌, List, [], ◌∷◌, ◌++◌, arith, length, length-append,
  append_assoc, append-nil,
}
use rag_cpp.Store.Format.{magic, le_bytes}
use rag_cpp.Store.Format.Codec.{length-le_bytes}
use rag_cpp.Store.Crc.{crc32}
use rag_cpp.Store.Container.{
  Container, write_table, write_payloads, write_header, header_size, entry_size, serialize,
}

abbrev pub table_bytes : ℕ → List (ℕ × List ℕ) → List ℕ
table_bytes cursor [] = []
table_bytes cursor ((tag, payload) ∷ ss) =
    le_bytes 4 tag
    ++ (le_bytes 8 cursor
        ++ (le_bytes 8 (length payload % 2 ^ 64)
            ++ table_bytes ((cursor + length payload) % 2 ^ 64) ss))

abbrev pub payload_bytes : List (ℕ × List ℕ) → List ℕ
payload_bytes [] = []
payload_bytes ((tag, payload) ∷ ss) = payload ++ payload_bytes ss

-- The header with `rest` behind it.
abbrev pub header_bytes : Container → List ℕ → List ℕ
header_bytes c rest =
    magic
    ++ (le_bytes 2 c.major
        ++ (le_bytes 2 c.minor
            ++ (le_bytes 4 c.flags
                ++ (le_bytes 4 (length c.sections % 2 ^ 32) ++ (le_bytes 8 0 ++ rest)))))

pub write_table-table_bytes :
    (cursor : ℕ) (ss : List (ℕ × List ℕ)) (w : List ℕ)
    → write_table cursor ss w ≡ w ++ table_bytes cursor ss
unfolding write_table
write_table-table_bytes cursor [] w = rw append-nil
write_table-table_bytes cursor ((tag, payload) ∷ ss) w =
    write_table-table_bytes ((cursor + length payload) % 2 ^ 64) ss _ ∙ simp append_assoc

pub write_payloads-payload_bytes :
    (ss : List (ℕ × List ℕ)) (w : List ℕ) → write_payloads ss w ≡ w ++ payload_bytes ss
unfolding write_payloads
write_payloads-payload_bytes [] w = rw append-nil
write_payloads-payload_bytes ((tag, payload) ∷ ss) w =
    write_payloads-payload_bytes ss (w ++ payload) ∙ append_assoc w payload (payload_bytes ss)

pub write_header-append :
    (c : Container) (rest : List ℕ) → write_header c ++ rest ≡ header_bytes c rest
unfolding write_header
write_header-append c rest = simp append_assoc

abbrev pub first_cursor : Container → ℕ
first_cursor c = (header_size + entry_size * length c.sections) % 2 ^ 64

-- Everything above the trailer.
abbrev pub front : Container → List ℕ
front c = write_header c ++ (table_bytes (first_cursor c) c.sections ++ payload_bytes c.sections)

pub serialize-front : (c : Container) → serialize c ≡ front c ++ le_bytes 4 (crc32 (front c))
unfolding serialize
serialize-front c = simp (write_table-table_bytes, write_payloads-payload_bytes, append_assoc)

pub length-table_bytes :
    (cursor : ℕ) (ss : List (ℕ × List ℕ)) → length (table_bytes cursor ss) ≡ 20 * length ss
length-table_bytes cursor [] = refl
length-table_bytes cursor ((tag, payload) ∷ ss) =
    simp (length-append, length-le_bytes)
      (omega (arith, length-table_bytes ((cursor + length payload) % 2 ^ 64) ss))

pub length-header : (c : Container) → length (write_header c) ≡ 28
unfolding write_header
length-header c = simp (length-append, length-le_bytes)
