-- ===== src/Loaders/Zip/Reading.antt =====
-- The members of an archive are read within the bytes, whatever they are.
use rag_cpp.Common.{
  ℕ, ◌+◌, ◌%◌, ◌^◌, ◌≤◌, ◌<◌, ◌≡◌, ◌≢◌, ◌⊎◌, refl, ap, subst, ◌∙◌, Bool, true, false, Option, none,
  some, List, [], ◌∷◌, All, length, take, drop, arith, inl, inr, Bool-cases, ltb, ◌==◌, ==_iff,
  All-middle, ◌++◌, Option-cases, length-take, length-drop,
}
use rag_cpp.Core.{Errc, Result, text_eq, text_eq_sound, text_eq-false}
use rag_cpp.Loaders.Bits.{rd16}
use rag_cpp.Loaders.Inflate.{max_inflate, inflate_raw}
use rag_cpp.Loaders.Inflate.Total.{inflate_raw-IsBounded, IsBounded}
use rag_cpp.Loaders.Zip.{
  ZipEntry, zip_entries, extract, if_local, zip_read, find_entry, read_found, and_then,
  zip_read_name, local_mark,
}
use rag_cpp.Loaders.Zip.Total.{
  Gives, >>=?-Gives, gives, IsByte, rd16-Gives, Any, matches-Gives, IsRead, Directory,
  zip_entries-Gives,
}

-- The bytes of an entry from `start` on.
abbrev pub slice : List ℕ → ZipEntry → ℕ → List ℕ
slice d e start = take e.comp_size (drop start d)

-- The member's bytes are in the archive. A stored member is these bytes, and of a deflated one they are
-- the stream.
abbrev pub Extracted : List ℕ → ZipEntry → ℕ → List ℕ → Type 0
Extracted d e start out =
    (length (slice d e start) ≡ e.comp_size)
    × (((e.method ≡ 0) × (out ≡ slice d e start))
        ⊎ ((e.method ≡ 8)
            × (length out ≤ max_inflate)
            × (inflate_raw (slice d e start) ≡ some (Result.value out))))

-- They stand behind the local header, its name and its extra field.
abbrev pub Member : List ℕ → ZipEntry → Result (List ℕ) → Type 0
Member d e (Result.value out) =
    (nlen : ℕ) × (elen : ℕ) × (rd16 d (e.offset + 26) ≡ some nlen)
    × (rd16 d (e.offset + 28) ≡ some elen)
    × Extracted d e (e.offset + 30 + nlen + elen) out
Member d e (Result.fail err) = (err ≡ Errc.invalid_argument) ⊎ (err ≡ Errc.parse_error)

abbrev Taken : List ℕ → ZipEntry → ℕ → Result (List ℕ) → Type 0
Taken d e start (Result.value out) = Extracted d e start out
Taken d e start (Result.fail err) = (err ≡ Errc.invalid_argument) ⊎ (err ≡ Errc.parse_error)

inflated-Taken :
    (d : List ℕ) (e : ZipEntry) (start : ℕ) (o : Option (Result (List ℕ)))
    → inflate_raw (slice d e start) ≡ o
    → length (slice d e start) ≡ e.comp_size
    → e.method ≡ 8
    → IsBounded o
    → Gives (Taken d e start) o
inflated-Taken d e start none q l m h = absurd h
inflated-Taken d e start (some (Result.value out)) q l m h = gives (l, inr (m, h, q))
inflated-Taken d e start (some (Result.fail err)) q l m h = gives (inl h)

length-slice :
    (d : List ℕ) (e : ZipEntry) (start : ℕ)
    → start + e.comp_size < 2 ^ 64
    → ltb (length d) ((start + e.comp_size) % 2 ^ 64) ≡ false
    → length (slice d e start) ≡ e.comp_size
length-slice d e start h f =
    ground (arith, f, h, length-take e.comp_size (drop start d), length-drop start d)

extract-Gives :
    (d : List ℕ) (e : ZipEntry) (start : ℕ)
    → start + e.comp_size < 2 ^ 64
    → Gives (Taken d e start) (extract d e start)
unfolding extract
extract-Gives d e start h = elim (Bool-cases (ltb (length d) ((start + e.comp_size) % 2 ^ 64))) [
  | inl f ↦ rw f (gives (inl refl))
  | inr f ↦ rw f (elim (Bool-cases (e.method == 0)) [
    | inl g ↦ rw g (gives (length-slice d e start h f, inl ((==_iff _ _).0 g, refl)))
    | inr g ↦ rw g (elim (Bool-cases (e.method == 8)) [
      | inl k ↦ rw k (
          inflated-Taken d e start _ refl (length-slice d e start h f) ((==_iff _ _).0 k)
            (inflate_raw-IsBounded (slice d e start)))
      | inr k ↦ rw k (gives (inr refl))
    ])
  ])
]

if_local-Gives :
    (d : List ℕ) (e : ZipEntry) (b : Option Bool) (o : Option (Result (List ℕ)))
    → Gives Any b
    → Gives (Member d e) o
    → Gives (Member d e) (if_local b o)
if_local-Gives d e none o h k = absurd h.value
if_local-Gives d e (some true) o h k = k
if_local-Gives d e (some false) o h k = gives (inl refl)

pub Gives-weaken :
    {A : Type 0} (P Q : A → Type 0) (o : Option A) → Gives P o → ((a : A) → P a → Q a) → Gives Q o
Gives-weaken P Q none h k = absurd h.value
Gives-weaken P Q (some a) h k = gives (k a h.value)

-- What a field holds, and that it is below 2^16.
abbrev Field : List ℕ → ℕ → ℕ → Type 0
Field d i v = (v < 2 ^ 16) × (rd16 d i ≡ some v)

rd16-Field : (d : List ℕ) (i : ℕ) → All IsByte d → i + 2 ≤ length d → Gives (Field d i) (rd16 d i)
rd16-Field d i bytes h = known (rd16 d i) refl (rd16-Gives d bytes i h)
  where
    known : (o : Option ℕ) → rd16 d i ≡ o → Gives (λ v. v < 2 ^ 16) o → Gives (Field d i) o
    known none q k = absurd k.value
    known (some v) q k = gives (k.value, q)

taken-Member :
    (d : List ℕ) (e : ZipEntry) (nlen elen : ℕ) (r : Result (List ℕ))
    → rd16 d (e.offset + 26) ≡ some nlen
    → rd16 d (e.offset + 28) ≡ some elen
    → Taken d e (e.offset + 30 + nlen + elen) r
    → Member d e r
taken-Member d e nlen elen (Result.value out) p q h = (nlen, elen, p, q, h)
taken-Member d e nlen elen (Result.fail err) p q h = h

found-Gives :
    (d : List ℕ) (e : ZipEntry) (nlen elen : ℕ)
    → IsRead e
    → Field d (e.offset + 26) nlen
    → Field d (e.offset + 28) elen
    → Gives (Member d e) (extract d e ((e.offset + 30 + nlen + elen) % 2 ^ 64))
found-Gives d e nlen elen h p q =
    let start : (e.offset + 30 + nlen + elen) % 2 ^ 64 ≡ e.offset + 30 + nlen + elen =
      omega (arith, h.0, p.0, q.0) in
    rw start (
      Gives-weaken (Taken d e (e.offset + 30 + nlen + elen)) (Member d e) _
        (extract-Gives d e (e.offset + 30 + nlen + elen) (omega (arith, h.0, h.1, p.0, q.0)))
        λ r k. taken-Member d e nlen elen r p.1 q.1 k)

pub zip_read-Gives :
    (d : List ℕ) (e : ZipEntry) → All IsByte d → IsRead e → Gives (Member d e) (zip_read d e)
unfolding zip_read
zip_read-Gives d e bytes h = elim (Bool-cases (ltb (length d) ((e.offset + 30) % 2 ^ 64))) [
  | inl f ↦ rw f (gives (inl refl))
  | inr f ↦ rw f (
      if_local-Gives d e _ _ (matches-Gives d e.offset local_mark (ground (arith, f, h.0))) (
        >>=?-Gives (Field d (e.offset + 26)) _ _
          (rd16-Field d (e.offset + 26) bytes (ground (arith, f, h.0)))
          λ nlen p.
            >>=?-Gives (Field d (e.offset + 28)) _ _
              (rd16-Field d (e.offset + 28) bytes (ground (arith, f, h.0)))
              λ elen q. found-Gives d e nlen elen h p q))
]

abbrev NotNamed : List ℕ → ZipEntry → Type 0
NotNamed name e = e.name ≢ name

-- The first entry of the name, if there is one.
abbrev First : List ℕ → List ZipEntry → Option ZipEntry → Type 0
First name es none = All (NotNamed name) es
First name es (some e) =
    (front : List ZipEntry) × (back : List ZipEntry) × (es ≡ front ++ e ∷ back)
    × All (NotNamed name) front
    × (e.name ≡ name)

skip-First :
    (name : List ℕ) (e : ZipEntry) (es : List ZipEntry) (o : Option ZipEntry)
    → NotNamed name e
    → First name es o
    → First name (e ∷ es) o
skip-First name e es none n h = (n, h)
skip-First name e es (some f) n (front, back, eq, h, k) =
    (e ∷ front, back, ap (λ l. e ∷ l) eq, (n, h), k)

find_entry-First : (name : List ℕ) (es : List ZipEntry) → First name es (find_entry name es)
unfolding find_entry
find_entry-First name [] = tt
find_entry-First name (e ∷ es) = elim (Bool-cases (text_eq e.name name)) [
  | inl f ↦ rw f ([], es, refl, tt, text_eq_sound _ _ f)
  | inr f ↦ rw f (
      skip-First name e es (find_entry name es) (text_eq-false e.name name f)
        (find_entry-First name es))
]

-- What `zip_read_name` returns: the first member of the name, or an error, which is `not_found` only
-- where the directory has no entry of the name.
abbrev pub Named : List ℕ → List ℕ → Result (List ℕ) → Type 0
Named d name (Result.value out) =
    (front : List ZipEntry) × (e : ZipEntry) × (back : List ZipEntry) × (zip_entries d
      ≡ some (Result.value (front ++ e ∷ back)))
    × All (NotNamed name) front
    × (e.name ≡ name)
    × Member d e (Result.value out)
Named d name (Result.fail err) =
    (err ≡ Errc.invalid_argument)
    ⊎ ((err ≡ Errc.parse_error)
        ⊎ ((err ≡ Errc.not_found)
            × ((es : List ZipEntry) × (zip_entries d ≡ some (Result.value es))
                × All (NotNamed name) es)))

module _ (d name : List ℕ) (bytes : All IsByte d) where
  member-Named :
      (front : List ZipEntry) (e : ZipEntry) (back : List ZipEntry)
      → zip_entries d ≡ some (Result.value (front ++ e ∷ back))
      → All (NotNamed name) front
      → e.name ≡ name
      → (r : Result (List ℕ)) → Member d e r
      → Named d name r
  member-Named front e back z h k (Result.value out) m = (front, e, back, z, h, k, m)
  member-Named front e back z h k (Result.fail err) (inl m) = inl m
  member-Named front e back z h k (Result.fail err) (inr m) = inr (inl m)

  read_found-Gives :
      (es : List ZipEntry) (o : Option ZipEntry)
      → zip_entries d ≡ some (Result.value es)
      → All IsRead es
      → First name es o
      → Gives (Named d name) (read_found d o)
  read_found-Gives es none z h f = gives (inr (inr (refl, (es, z, f))))
  read_found-Gives es (some e) z h (front, back, eq, k, n) =
      let r = subst (All IsRead) eq h in
      Gives-weaken (Member d e) (Named d name) (zip_read d e)
        (zip_read-Gives d e bytes (All-middle IsRead front e back r))
        (member-Named front e back (z ∙ ap (λ l. some (Result.value l)) eq) k n)

  and_then-Gives :
      (r : Result (List ZipEntry))
      → zip_entries d ≡ some r
      → Directory r
      → Gives (Named d name) (and_then r λ es. read_found d (find_entry name es))
  and_then-Gives (Result.fail e) z h = gives (inl h)
  and_then-Gives (Result.value es) z h =
      read_found-Gives es (find_entry name es) z h.2 (find_entry-First name es)

pub zip_read_name-Named :
    (d name : List ℕ) → All IsByte d → Gives (Named d name) (zip_read_name d name)
unfolding zip_read_name
zip_read_name-Named d name bytes = elim (Option-cases (zip_entries d)) [
  | inl z ↦ absurd (subst (Gives Directory) z (zip_entries-Gives d bytes)).value
  | inr (r, z) ↦ rw z (
      and_then-Gives d name bytes r z (subst (Gives Directory) z (zip_entries-Gives d bytes)).value)
]
