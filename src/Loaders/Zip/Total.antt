-- ===== src/Loaders/Zip/Total.antt =====
-- The directory of an archive is read within the bytes, whatever they are.
use rag_cpp.Common.{
  ℕ, zero, suc, ◌+◌, ◌-◌, ◌^◌, ◌≤◌, ◌<◌, ◌≡◌, refl, min, Bool, true, false, Option, none, some,
  List, [], ◌∷◌, ◌++◌, All, All-append, length, get_elem?, arith, inl, inr, Bool-cases,
  Option-cases, ltb, leb, leb→le, length-append,
}
use rag_cpp.Core.{Errc, Result}
use rag_cpp.Loaders.Bits.{rd16, rd32, ◌>>=?◌}
use rag_cpp.Loaders.Bits.Ensures.{get_elem?-lt}
use rag_cpp.Loaders.Zip.{
  ZipEntry, both, matches, found_at, find_eocd, named, read_entry, if_marked, entry_at, with_entry,
  entries_loop, nonempty, read_directory, with_eocd, zip_entries, end_mark, central_mark,
}

abbrev pub Value : {A : Type 0} → (A → Type 0) → Option A → Type 0
Value P none = ⊥
Value P (some a) = P a

pub record Gives {A : Type 0} (P : A → Type 0) (o : Option A) : Type 0 where
  pub value : Value P o

module _ {A B : Type 0} (P : A → Type 0) {Q : B → Type 0} where
  pub >>=?-Gives :
      (o : Option A) (f : A → Option B)
      → Gives P o
      → ((a : A) → P a → Gives Q (f a))
      → Gives Q (o >>=? f)
  >>=?-Gives none f h k = absurd h.value
  >>=?-Gives (some a) f h k = k a h.value

pub gives : {A : Type 0} {P : A → Type 0} {a : A} → P a → Gives P (some a)
gives h = record { value = h }

abbrev pub IsByte : ℕ → Type 0
IsByte b = b < 256

All-get :
    (P : ℕ → Type 0) (xs : List ℕ) (i : ℕ) → All P xs → i < length xs → Gives P (get_elem? xs i)
All-get P [] i h e = absurd (omega (arith, e))
All-get P (y ∷ xs) zero h e = gives h.0
All-get P (y ∷ xs) (suc i) h e = All-get P xs i h.1 (omega (arith, e))

module _ (d : List ℕ) (bytes : All IsByte d) where
  pub rd16-Gives : (i : ℕ) → i + 2 ≤ length d → Gives (λ v. v < 2 ^ 16) (rd16 d i)
  unfolding rd16
  rd16-Gives i h = >>=?-Gives IsByte _ _ (All-get IsByte d i bytes (omega (arith, h))) λ a p.
      >>=?-Gives IsByte _ _ (All-get IsByte d (i + 1) bytes (omega (arith, h)))
        λ b q. gives (omega (arith, p, q))

  rd32-Gives : (i : ℕ) → i + 4 ≤ length d → Gives (λ v. v < 2 ^ 32) (rd32 d i)
  unfolding rd32
  rd32-Gives i h =
      >>=?-Gives (λ v. v < 2 ^ 16) _ _ (rd16-Gives i (omega (arith, h)))
        λ a p.
          >>=?-Gives (λ v. v < 2 ^ 16) _ _ (rd16-Gives (i + 2) (omega (arith, h)))
            λ b q. gives (omega (arith, p, q))

-- The fields that `zip_read` adds up come from 32 bits.
abbrev pub IsRead : ZipEntry → Type 0
IsRead e = (e.offset < 2 ^ 32) × (e.comp_size < 2 ^ 32)

abbrev pub Any : {A : Type 0} → A → Type 0
Any a = Unit {0}

both-Gives :
    (o : Option Bool) (k : Unit {0} → Option Bool)
    → Gives Any o
    → Gives Any (k tt)
    → Gives Any (both o k)
both-Gives none k h l = absurd h.value
both-Gives (some true) k h l = l
both-Gives (some false) k h l = gives tt

get-Gives : (xs : List ℕ) (i : ℕ) → i < length xs → Gives Any (get_elem? xs i)
get-Gives xs i h = elim (Option-cases (get_elem? xs i)) [
  | inl e ↦ absurd (get_elem?-lt xs i h e)
  | inr (x, e) ↦ rw e (gives tt)
]

pub matches-Gives :
    (d : List ℕ) (i : ℕ) (mark : List ℕ) → i + length mark ≤ length d → Gives Any (matches d i mark)
unfolding matches
matches-Gives d i [] h = gives tt
matches-Gives d i (b ∷ bs) h =
    both-Gives _ _ (>>=?-Gives Any _ _ (get-Gives d i (omega (arith, h))) λ x p. gives tt)
      (matches-Gives d (i + 1) bs (omega (arith, h)))

abbrev Within : List ℕ → Option ℕ → Type 0
Within d none = Unit
Within d (some i) = i + 22 ≤ length d

found_at-Gives :
    (d : List ℕ) (hit : Option Bool) (i : ℕ) (rest : Option (Option ℕ))
    → Gives Any hit
    → i + 22 ≤ length d
    → Gives (Within d) rest
    → Gives (Within d) (found_at hit i rest)
found_at-Gives d none i rest h b k = absurd h.value
found_at-Gives d (some true) i rest h b k = gives b
found_at-Gives d (some false) i rest h b k = k

find_eocd-Gives :
    (n back : ℕ) (d : List ℕ)
    → 22 ≤ back
    → n + back ≤ length d + 1
    → Gives (Within d) (find_eocd n back d)
unfolding find_eocd
find_eocd-Gives zero back d h k = gives tt
find_eocd-Gives (suc n) back d h k =
    found_at-Gives d _ _ _ (matches-Gives d (length d - back) end_mark (omega (arith, h, k)))
      (omega (arith, h, k)) (find_eocd-Gives n (back + 1) d (omega (arith, h)) (omega (arith, k)))

abbrev ReadEntry : Option (ZipEntry × ℕ) → Type 0
ReadEntry none = Unit
ReadEntry (some (e, p)) = IsRead e

named-ReadEntry :
    (d : List ℕ) (p : ℕ) (e : ZipEntry) (nlen elen clen : ℕ)
    → IsRead e
    → ReadEntry (named d p e nlen elen clen)
named-ReadEntry d p e nlen elen clen h = elim (Bool-cases (leb (p + 46 + nlen) (length d))) [
  | inl f ↦ rw f h
  | inr f ↦ rw f tt
]

if_marked-Gives :
    (b : Option Bool) (o : Option (Option (ZipEntry × ℕ)))
    → Gives Any b
    → Gives ReadEntry o
    → Gives ReadEntry (if_marked b o)
if_marked-Gives none o h k = absurd h.value
if_marked-Gives (some true) o h k = k
if_marked-Gives (some false) o h k = gives tt

module _ {Q : List ZipEntry → Type 0} (out : List ZipEntry)
    (go : ℕ → List ZipEntry → Option (List ZipEntry)) where
  with_entry-Gives :
      (o : Option (ZipEntry × ℕ))
      → ReadEntry o
      → All IsRead out
      → Q out
      → ((p : ℕ) (out2 : List ZipEntry)
          → All IsRead out2
          → length out2 ≡ length out + 1
          → Gives Q (go p out2))
      → Gives Q (with_entry o out go)
  with_entry-Gives none r h q k = gives q
  with_entry-Gives (some (e, p)) r h q k =
      k p (out ++ e ∷ []) (All-append IsRead out (e ∷ []) h (r, tt)) (length-append out (e ∷ []))

-- At most `n` entries, all of them read from the archive.
abbrev AreRead : ℕ → List ZipEntry → Type 0
AreRead n es = All IsRead es × (length es ≤ n)

-- A result whose errors are `invalid_argument`.
abbrev pub Directory : Result (List ZipEntry) → Type 0
Directory (Result.fail e) = e ≡ Errc.invalid_argument
Directory (Result.value es) = (1 ≤ length es) × (length es < 2 ^ 16) × All IsRead es

nonempty-Gives : (es : List ZipEntry) → AreRead 65535 es → Gives Directory (nonempty es)
nonempty-Gives [] h = gives refl
nonempty-Gives (e ∷ es) h = gives (omega arith, omega (arith, h.1), h.0)

module _ (d : List ℕ) (bytes : All IsByte d) where
  read_entry-Gives : (p : ℕ) → p + 46 ≤ length d → Gives ReadEntry (read_entry d p)
  unfolding read_entry
  read_entry-Gives p h =
      >>=?-Gives (λ v. v < 2 ^ 16) _ _ (rd16-Gives d bytes (p + 10) (omega (arith, h)))
        λ method h1.
          >>=?-Gives (λ v. v < 2 ^ 32) _ _ (rd32-Gives d bytes (p + 20) (omega (arith, h)))
            λ comp_size h2.
              >>=?-Gives (λ v. v < 2 ^ 32) _ _ (rd32-Gives d bytes (p + 24) (omega (arith, h)))
                λ uncomp_size h3.
                  >>=?-Gives (λ v. v < 2 ^ 16) _ _ (rd16-Gives d bytes (p + 28) (omega (arith, h)))
                    λ nlen h4.
                      >>=?-Gives (λ v. v < 2 ^ 16) _ _
                        (rd16-Gives d bytes (p + 30) (omega (arith, h)))
                        λ elen h5.
                          >>=?-Gives (λ v. v < 2 ^ 16) _ _
                            (rd16-Gives d bytes (p + 32) (omega (arith, h)))
                            λ clen h6.
                              >>=?-Gives (λ v. v < 2 ^ 32) _ _
                                (rd32-Gives d bytes (p + 42) (omega (arith, h)))
                                λ offset h7. gives (
                                  named-ReadEntry d p
                                    (record {
                                      name = [];
                                      offset = offset;
                                      comp_size = comp_size;
                                      uncomp_size = uncomp_size;
                                      method = method;
                                    })
                                    nlen elen clen (h7, h2))

  entry_at-Gives : (p : ℕ) → Gives ReadEntry (entry_at d p)
  unfolding entry_at
  entry_at-Gives p = elim (Bool-cases (leb (p + 46) (length d))) [
    | inl e ↦ rw e (
        if_marked-Gives _ _ (matches-Gives d p central_mark (omega (arith, leb→le _ _ e)))
          (read_entry-Gives p (leb→le _ _ e)))
    | inr e ↦ rw e (gives tt)
  ]

  entries_loop-Gives :
      (n m p : ℕ) (out : List ZipEntry)
      → All IsRead out
      → length out + n ≤ m
      → Gives (AreRead m) (entries_loop n d p out)
  unfolding entries_loop
  entries_loop-Gives zero m p out h b = gives (h, omega (arith, b))
  entries_loop-Gives (suc n) m p out h b = >>=?-Gives ReadEntry _ _ (entry_at-Gives p) λ o r.
      with_entry-Gives out _ o r h (h, omega (arith, b))
        λ p2 out2 h2 e. entries_loop-Gives n m p2 out2 h2 (omega (arith, b, e))

  read_directory-Gives : (i : ℕ) → i + 22 ≤ length d → Gives Directory (read_directory d i)
  unfolding read_directory
  read_directory-Gives i h =
      >>=?-Gives (λ v. v < 2 ^ 16) _ _ (rd16-Gives d bytes (i + 10) (omega (arith, h)))
        λ count h1.
          >>=?-Gives (λ v. v < 2 ^ 32) _ _ (rd32-Gives d bytes (i + 16) (omega (arith, h)))
            λ cd_off h2. elim (Bool-cases (leb (length d) cd_off)) [
              | inl e ↦ rw e (gives refl)
              | inr e ↦ rw e (
                  >>=?-Gives (AreRead 65535) _ _
                    (entries_loop-Gives count 65535 cd_off [] tt (omega (arith, h1)))
                    nonempty-Gives)
            ]

  with_eocd-Gives : (o : Option ℕ) → Within d o → Gives Directory (with_eocd d o)
  with_eocd-Gives none h = gives refl
  with_eocd-Gives (some i) h = read_directory-Gives i h

  pub zip_entries-Gives : Gives Directory (zip_entries d)
  unfolding zip_entries
  zip_entries-Gives = elim (Bool-cases (ltb (length d) 22)) [
    | inl e ↦ rw e (gives refl)
    | inr e ↦ rw e (
        >>=?-Gives (Within d) _ _
          (find_eocd-Gives (min (length d) 66000 + 1 - 22) 22 d (omega arith) (ground (arith, e)))
          with_eocd-Gives)
  ]
