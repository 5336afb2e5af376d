-- ===== src/Core.antt =====
-- include/rag/core/types.hpp and include/rag/core/document.hpp: identifiers, error kinds, results
-- and the records of the corpus. Bytes are natural numbers, a `std::string` is the list of its
-- bytes. An error carries its kind; the message beside it is text for people and is left out.
mod Text
mod Decimal
unfoldable pub use Text.*
pub use Decimal.*
use rag_cpp.Common.{ℕ, ◌^◌, ◌-◌, ◌∷◌, List, ◌++◌, Bool, not, ◌==◌, if◌then◌else◌}

pub data Errc : Type 0 where
  ok not_found invalid_argument dimension_mismatch io_error parse_error : Errc
  transport_error unavailable empty_corpus already_exists corrupt_index : Errc

-- `std::expected<T, Error>`
pub data Result {ℓ} (A : Type ℓ) : Type ℓ where
  value : A → Result A
  fail : Errc → Result A

infixl 5 ◌>>=◌
abbrev pub ◌>>=◌ {ℓ κ} : {A : Type ℓ} {B : Type κ} → Result A → (A → Result B) → Result B
value a >>= f = f a
fail e >>= f = fail e

-- `StrongId::invalid()` and `valid()`
abbrev pub invalid : ℕ
invalid = 2 ^ 32 - 1

unfoldable pub valid : ℕ → Bool
valid id = not (id == invalid)

-- The records hold what the modelled code sets: a chunk's embedding and its borrowed pointer to
-- the metadata stay empty there.
pub record Chunk : Type 0 where
  pub id : ℕ
  pub doc : ℕ
  pub text : List ℕ
  pub context : List ℕ
  pub start_line : ℕ
  pub end_line : ℕ

unfoldable pub indexed_text : Chunk → List ℕ
indexed_text c = if is_empty c.context then c.text else c.context ++ b'\n' ∷ c.text
