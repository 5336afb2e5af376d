-- ===== src/Store/Format/Codec.antt =====
-- What `Reader` reads of what `Writer` wrote.
use rag_cpp.Common.{
  ℕ, zero, suc, ◌/◌, ◌%◌, ◌^◌, ◌<◌, ◌≡◌, refl, ap, ◌∙◌, Bool, Option, none, some, List, ◌++◌, arith,
  length, length-append, take-append_length, drop-append_length, le→ltb,
}
use rag_cpp.Store.Format.{
  le_bytes, le_value, Reader, Read, read_u, read_bytes, read_str, from_option, ◌>>=◌,
}

-- One step of a `do` block of reads.
module _ {ℓ κ} {A : Type ℓ} {B : Type κ} (m : Read A) (f : A → Read B) where
  pub >>=-eq_some : {r r' : Reader} {a : A} → m r ≡ (some a, r') → (m >>= f) r ≡ f a r'
  unfolding ◌>>=◌
  >>=-eq_some h = rw h

  pub >>=-eq_none : {r r' : Reader} → m r ≡ (none, r') → (m >>= f) r ≡ (none, r')
  unfolding ◌>>=◌
  >>=-eq_none h = rw h

pub length-le_bytes : (n v : ℕ) → length (le_bytes n v) ≡ n
unfolding le_bytes
length-le_bytes zero v = refl
length-le_bytes (suc n) v = ap suc (length-le_bytes n (v / 256))

-- An integer that fits is read back.
pub le_value-le_bytes : (n v : ℕ) → v < 256 ^ n → le_value (le_bytes n v) ≡ v
unfolding le_bytes le_value
le_value-le_bytes zero v h = omega arith
le_value-le_bytes (suc n) v h = omega (arith, le_value-le_bytes n (v / 256) (omega arith))

abbrev pub at : List ℕ → Bool → Reader
at s b = record { input = s; ok = b }

pub read_bytes-append :
    (s rest : List ℕ) (b : Bool) → read_bytes (length s) (at (s ++ rest) b) ≡ (some s, at rest b)
unfolding read_bytes
read_bytes-append s rest b =
    rw (le→ltb (length (s ++ rest)) (length s) (omega (arith, length-append s rest)))
      (rw (take-append_length s rest, drop-append_length s rest))

read_u-append :
    (s rest : List ℕ) (b : Bool)
    → read_u (length s) (at (s ++ rest) b) ≡ (some (le_value s), at rest b)
unfolding read_u
read_u-append s rest b =
    rw (le→ltb (length (s ++ rest)) (length s) (omega (arith, length-append s rest)))
      (rw (take-append_length s rest, drop-append_length s rest))

pub read_u-le_bytes :
    (n v : ℕ) (rest : List ℕ) (b : Bool)
    → v < 256 ^ n
    → read_u n (at (le_bytes n v ++ rest) b) ≡ (some v, at rest b)
read_u-le_bytes n v rest b h =
    rw (length-le_bytes n v, le_value-le_bytes n v h) at (read_u-append (le_bytes n v) rest b)

-- A length-prefixed string, in the form that the encoders leave: prefix, then bytes.
pub read_str-written :
    (s rest : List ℕ) (b : Bool)
    → length s < 2 ^ 32
    → read_str (at (le_bytes 4 (length s % 2 ^ 32) ++ (s ++ rest)) b) ≡ (some s, at rest b)
unfolding read_str
read_str-written s rest b h =
    let e : length s % 2 ^ 32 ≡ length s = omega arith in
    rw e (
      >>=-eq_some (read_u 4) read_bytes (read_u-le_bytes 4 (length s) (s ++ rest) b (omega arith))
      ∙ read_bytes-append s rest b)

-- The same lemmas at the head of a `do` block: the block goes on with what was read.
module _ {B : Type 0} (f : ℕ → Read B) {z : Option B × Reader} where
  pub read_u-then :
      (n v : ℕ) (rest : List ℕ) (b : Bool)
      → v < 256 ^ n
      → f v (at rest b) ≡ z
      → (read_u n >>= f) (at (le_bytes n v ++ rest) b) ≡ z
  read_u-then n v rest b h e = >>=-eq_some (read_u n) f (read_u-le_bytes n v rest b h) ∙ e

module _ {B : Type 0} (f : List ℕ → Read B) {z : Option B × Reader} where
  pub read_bytes-then :
      (s rest : List ℕ) (b : Bool)
      → f s (at rest b) ≡ z
      → (read_bytes (length s) >>= f) (at (s ++ rest) b) ≡ z
  read_bytes-then s rest b e =
      >>=-eq_some (read_bytes (length s)) f (read_bytes-append s rest b) ∙ e

  pub read_str-then :
      (s rest : List ℕ) (b : Bool)
      → length s < 2 ^ 32
      → f s (at rest b) ≡ z
      → (read_str >>= f) (at (le_bytes 4 (length s % 2 ^ 32) ++ (s ++ rest)) b) ≡ z
  read_str-then s rest b h e = >>=-eq_some read_str f (read_str-written s rest b h) ∙ e

module _ {A B : Type 0} (f : A → Read B) {z : Option B × Reader} where
  pub from_option-then :
      (o : Option A) (r : Reader) {a : A} → o ≡ some a → f a r ≡ z → (from_option o >>= f) r ≡ z
  unfolding ◌>>=◌
  from_option-then o r h e = rw h e

  pub >>=-then :
      (m : Read A) {r r' : Reader} {a : A} → m r ≡ (some a, r') → f a r' ≡ z → (m >>= f) r ≡ z
  >>=-then m h e = >>=-eq_some m f h ∙ e
