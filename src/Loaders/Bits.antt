-- ===== src/Loaders/Bits.antt =====
-- The bytes of an archive in src/loaders/ooxml.cpp: `rd16`, `rd32` and the `BitReader`. The flag
-- `ok_` is not modelled, since nothing reads it.
pub mod Ensures
pub mod Stream
use rag_cpp.Common.{
  ℕ, zero, suc, ◌+◌, ◌-◌, ◌*◌, ◌/◌, ◌%◌, ◌^◌, Bool, true, false, Option, none, some, List, [], ◌∷◌,
  length, get_elem?, ltb, leb, ◌==◌, if◌then◌else◌,
}

infixl 5 ◌>>=?◌
abbrev pub ◌>>=?◌ : {A B : Type 0} → Option A → (A → Option B) → Option B
none >>=? f = none
some a >>=? f = f a

-- `none` is a read outside of the bytes.
unfoldable pub rd16 : List ℕ → ℕ → Option ℕ
rd16 d i = get_elem? d i >>=? λ a. get_elem? d (i + 1) >>=? λ b. some (a + 256 * b)

unfoldable pub rd32 : List ℕ → ℕ → Option ℕ
rd32 d i = rd16 d i >>=? λ a. rd16 d (i + 2) >>=? λ b. some (a + 65536 * b)

pub record BitReader : Type 0 where
  pub input : List ℕ
  pub pos : ℕ
  pub cur : ℕ
  pub nbits : ℕ

-- `bad` is an error that `inflate_raw` returns, which is always `invalid_argument`; -1 from a read
-- is `bad` too, since every caller returns the error then. `stray` is a read outside of an array, or
-- a loop that has run out of fuel.
pub data Outcome (A : Type 0) : Type 0 where
  got : A → BitReader → Outcome A
  bad stray : Outcome A

abbrev pub Read : Type 0 → Type 0
Read A = BitReader → Outcome A

abbrev pub continue : {A B : Type 0} → Outcome A → (A → Read B) → Outcome B
continue (got a r) f = f a r
continue bad f = bad
continue stray f = stray

infixl 5 ◌>>=◌ ◌>>◌
unfoldable pub ◌>>=◌ : {A B : Type 0} → Read A → (A → Read B) → Read B
◌>>=◌ m f r = continue (m r) f

abbrev pub ◌>>◌ : {B : Type 0} → Read (Unit {0}) → Read B → Read B
m >> k = m >>= λ _. k

abbrev pub pure : {A : Type 0} → A → Read A
pure a r = got a r

abbrev pub fail : {A : Type 0} → Read A
fail r = bad

abbrev pub lost : {A : Type 0} → Read A
lost r = stray

-- The branches are reads, of which one is run.
abbrev pub choose : {A : Type 0} → Bool → Read A → Read A → Read A
choose true a b r = a r
choose false a b r = b r

-- An access to an array.
abbrev pub in_range : {A : Type 0} → Option A → Read A
in_range none = lost
in_range (some a) = pure a

-- A return with an error where the test fails.
abbrev pub guard : Bool → Read (Unit {0})
guard true = pure tt
guard false = fail

abbrev pub or_fail : {A : Type 0} → Option A → Read A
or_fail none = fail
or_fail (some a) = pure a

abbrev pub next_byte : Option ℕ → BitReader → Outcome ℕ
next_byte none r = bad
next_byte (some byte) r =
    got (byte % 2) (record { input = r.input; pos = r.pos + 1; cur = byte / 2; nbits = 7 })

unfoldable pub bit : Read ℕ
bit r =
    if r.nbits == 0
    then next_byte (get_elem? r.input r.pos) r
    else got (r.cur % 2)
        (record { input = r.input; pos = r.pos; cur = r.cur / 2; nbits = r.nbits - 1 })

-- `v |= b << i` sets a bit of `v` that is clear.
unfoldable pub bits_from : ℕ → ℕ → ℕ → Read ℕ
bits_from zero i v = pure v
bits_from (suc n) i v = bit >>= λ b. bits_from n (i + 1) (v + b * 2 ^ i)

unfoldable pub bits : ℕ → Read ℕ
bits n = bits_from n 0 0

abbrev pub align : Read (Unit {0})
align r = got tt (record { input = r.input; pos = r.pos; cur = r.cur; nbits = 0 })

abbrev pub seek : ℕ → Read (Unit {0})
seek p r = got tt (record { input = r.input; pos = p; cur = r.cur; nbits = 0 })

abbrev pub bit_reader : List ℕ → BitReader
bit_reader input = record { input = input; pos = 0; cur = 0; nbits = 0 }
