-- ===== src/Store/Format/Ensures.antt =====
-- What a `do` block of reads ensures where it succeeds, one rule for each way to build a block.
use rag_cpp.Common.{
  ℕ, ◌≡◌, ◌≤◌, arith, refl, ap, subst, Bool, true, false, Option, none, some, List, take, length,
}
use rag_cpp.Store.Format.{Reader, Read, ◌>>=◌, continue, pure, read_bytes, guard, from_option}

pub no_value : {A : Type 0} {a : A} → none ≡ some a → ⊥
no_value e = cc

pub some_inj : {A : Type 0} {a b : A} → some a ≡ some b → a ≡ b
some_inj e = cc

-- If `m` succeeds from `r`, what it returns has the property.
pub record Ensures {A : Type 0} (P : A → Type 0) (m : Read A) (r : Reader) : Type 0 where
  pub holds : (a : A) (s : Reader) → m r ≡ (some a, s) → P a

module _ {A B : Type 0} (P : B → Type 0) (m : Read A) (f : A → Read B) (r : Reader) where
  continue-Ensures :
      (x : Option A × Reader)
      → ((a : A) (s : Reader) → x ≡ (some a, s) → Ensures P (f a) s)
      → (b : B) (t : Reader) → continue x f ≡ (some b, t)
      → P b
  continue-Ensures (none, s) h b t e = absurd (no_value (ap (λ x. x.0) e))
  continue-Ensures (some a, s) h b t e = (h a s refl).holds b t e

  pub >>=-Ensures :
      ((a : A) (s : Reader) → m r ≡ (some a, s) → Ensures P (f a) s) → Ensures P (m >>= f) r
  unfolding ◌>>=◌
  >>=-Ensures h = record { holds = continue-Ensures (m r) h }

pub pure-Ensures : {A : Type 0} (P : A → Type 0) (a : A) (r : Reader) → P a → Ensures P (pure a) r
pure-Ensures P a r h = record { holds = λ b s e. subst P (some_inj (ap (λ x. x.0) e)) h }

module _ {B : Type 0} (P : B → Type 0) where
  pub guard-Ensures :
      (b : Bool) (k : Unit {0} → Read B) (r : Reader)
      → (b ≡ true → Ensures P (k tt) r)
      → Ensures P (guard b >>= k) r
  unfolding ◌>>=◌
  guard-Ensures true k r h = record { holds = (h refl).holds }
  guard-Ensures false k r h = record { holds = λ a s e. absurd (no_value (ap (λ x. x.0) e)) }

  pub from_option-Ensures :
      {A : Type 0} (o : Option A) (k : A → Read B) (r : Reader)
      → ((a : A) → o ≡ some a → Ensures P (k a) r)
      → Ensures P (from_option o >>= k) r
  unfolding ◌>>=◌
  from_option-Ensures none k r h = record { holds = λ a s e. absurd (no_value (ap (λ x. x.0) e)) }
  from_option-Ensures (some a) k r h = record { holds = (h a refl).holds }

-- What a read of bytes returned is the front of the input.
pub read_bytes-eq_some :
    (n : ℕ) (r : Reader) (a : List ℕ) (s : Reader)
    → read_bytes n r ≡ (some a, s)
    → (a ≡ take n r.input) × (n ≤ length r.input)
unfolding read_bytes
read_bytes-eq_some n r a s e = ground arith
