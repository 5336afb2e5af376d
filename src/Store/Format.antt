-- ===== src/Store/Format.antt =====
-- include/rag/store/format.hpp: the little-endian `Writer` and `Reader`, and the constants of the
-- format. A writer is the bytes that it holds.
pub mod Codec
pub mod Ensures
pub mod Loops
use rag_cpp.Common.{
  ℕ, zero, suc, ◌+◌, ◌*◌, ◌/◌, ◌%◌, ◌^◌, ◌≡◌, refl, Bool, true, false, Option, none, some, List, [],
  ◌∷◌, ◌++◌, length, take, drop, ltb, if◌then◌else◌,
}
use rag_cpp.Core.{bytes}

abbrev pub magic : List ℕ
magic = 0x52 ∷ 0x41 ∷ 0x47 ∷ 0x44 ∷ 0x42 ∷ 0 ∷ 0 ∷ 0 ∷ []

abbrev pub format_major : ℕ
format_major = 1

abbrev pub format_minor : ℕ
format_minor = 1

-- The bytes of an unsigned integer of `n` bytes, lowest first.
unfoldable pub le_bytes : ℕ → ℕ → List ℕ
le_bytes zero v = []
le_bytes (suc n) v = (v % 256) ∷ le_bytes n (v / 256)

unfoldable pub le_value : List ℕ → ℕ
le_value [] = 0
le_value (b ∷ bs) = b + 256 * le_value bs

-- `w.u<T>(v)` for a `T` of `n` bytes, `w.bytes(s)`, `w.str(s)`
abbrev pub write_u : ℕ → ℕ → List ℕ → List ℕ
write_u n v w = w ++ le_bytes n v

abbrev pub write_bytes : List ℕ → List ℕ → List ℕ
write_bytes s w = w ++ s

abbrev pub write_str : List ℕ → List ℕ → List ℕ
write_str s w = write_bytes s (write_u 4 (length s % 2 ^ 32) w)

pub record Reader : Type 0 where
  pub input : List ℕ
  pub ok : Bool

-- A read gives a value, or `none` where the source returns false; the reader comes back with both.
abbrev pub Read {ℓ} : Type ℓ → Type ℓ
Read A = Reader → Option A × Reader

abbrev pub continue {ℓ κ} :
    {A : Type ℓ} {B : Type κ} → Option A × Reader → (A → Read B) → Option B × Reader
continue (none, r) f = (none, r)
continue (some a, r) f = f a r

infixl 5 ◌>>=◌ ◌>>◌
unfoldable pub ◌>>=◌ {ℓ κ} : {A : Type ℓ} {B : Type κ} → Read A → (A → Read B) → Read B
◌>>=◌ m f r = continue (m r) f

abbrev pub ◌>>◌ {ℓ κ} : {A : Type ℓ} {B : Type κ} → Read A → Read B → Read B
m >> k = m >>= λ _. k

abbrev pub pure {ℓ} : {A : Type ℓ} → A → Read A
pure a r = (some a, r)

abbrev pub reject {ℓ} : {A : Type ℓ} → Read A
reject r = (none, r)

abbrev pub guard : Bool → Read (Unit {0})
guard true = pure tt
guard false = reject

abbrev pub from_option {ℓ} : {A : Type ℓ} → Option A → Read A
from_option none = reject
from_option (some a) = pure a

unfoldable pub read_bytes : ℕ → Read (List ℕ)
read_bytes n r =
    if ltb (length r.input) n
    then (none, record r { ok = false })
    else (some (take n r.input), record r { input = drop n r.input })

unfoldable pub read_u : ℕ → Read ℕ
read_u n r =
    if ltb (length r.input) n
    then (none, record r { ok = false })
    else (some (le_value (take n r.input)), record r { input = drop n r.input })

unfoldable pub read_str : Read (List ℕ)
read_str = do n ← read_u 4; read_bytes n

abbrev pub reader : List ℕ → Reader
reader s = record { input = s; ok = true }

-- `for (const auto& x : xs) …`, where the body writes `x`.
unfoldable pub write_each : {X : Type 0} → (X → List ℕ → List ℕ) → List X → List ℕ → List ℕ
write_each write [] w = w
write_each write (x ∷ xs) w = write_each write xs (write x w)

-- `for (i = 0; i < n; ++i) …`, where the body reads and changes `a`, or returns.
unfoldable pub repeat_read : {A : Type 0} → ℕ → (A → Read A) → A → Read A
repeat_read zero f a = pure a
repeat_read (suc n) f a = f a >>= repeat_read n f
