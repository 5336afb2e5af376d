-- ===== src/Plugin/Registry.antt =====
-- `Registry` of include/rag/plugin/registry.hpp. The interface that a factory builds, its
-- configuration and the set of registries that it is given are parameters, and so are the tests and
-- lookups of the JSON library that `create_from` makes.
pub mod Laws
use rag_cpp.Common.{
  ℕ, Bool, true, false, not, Option, none, some, List, [], ◌∷◌, ◌++◌, map, length, if◌then◌else◌,
}
use rag_cpp.Common.SortedMap.{find, insert_or_assign}
use rag_cpp.Core.{Errc, Result, bytes, is_empty, text_order}

-- What the code asks of a JSON value; `string_at` is the string under a key of an object.
pub record JsonView (Json : Type 0) : Type 0 where
  pub as_string : Json → Option (List ℕ)
  pub is_object : Json → Bool
  pub string_at : Json → List ℕ → Option (List ℕ)
  pub object : Json

pub record Factory (Json All Interface : Type 0) : Type 0 where
  pub build : Json → All → Result Interface
  pub description : List ℕ

abbrev pub Factories : Type 0 → Type 0 → Type 0 → Type 0
Factories Json All Interface = List (List ℕ × Factory Json All Interface)

abbrev is_there : {A : Type 0} → Option A → Bool
is_there none = false
is_there (some a) = true

-- The string under the first of the keys that holds one; empty if none does.
unfoldable pub first_string : {Json : Type 0} → JsonView Json → Json → List (List ℕ) → List ℕ
first_string v spec [] = []
first_string v spec (key ∷ keys) = elim (v.string_at spec key) [
  | some name ↦ name
  | none ↦ first_string v spec keys
]

abbrev pub type_keys : List (List ℕ)
type_keys = bytes "type" ∷ bytes "backend" ∷ bytes "name" ∷ bytes "kind" ∷ []

module _ {Json All Interface : Type 0} where
  unfoldable pub registers : List ℕ → Factories Json All Interface → Bool
  registers name r = is_there (find text_order name r)

  -- The registry, and whether the name is new.
  unfoldable pub register_described :
      List ℕ
      → (Json → All → Result Interface)
      → List ℕ
      → Factories Json All Interface
      → Bool × Factories Json All Interface
  register_described name factory description r = (
    not (registers name r),
    insert_or_assign text_order name (record { build = factory; description = description }) r,
  )

  abbrev pub created : Option (Factory Json All Interface) → Json → All → Result Interface
  created none config all = Result.fail Errc.not_found
  created (some f) config all = f.build config all

  unfoldable pub create : List ℕ → Json → All → Factories Json All Interface → Result Interface
  create name config all r = created (find text_order name r) config all

  unfoldable pub create_from :
      JsonView Json → Json → All → Factories Json All Interface → Result Interface
  create_from v spec all r = elim (v.as_string spec) [
    | some name ↦ create name v.object all r
    | none ↦
        if not (v.is_object spec)
        then Result.fail Errc.invalid_argument
        else if is_empty (first_string v spec type_keys)
        then Result.fail Errc.invalid_argument
        else create (first_string v spec type_keys) spec all r
  ]

  unfoldable pub names : Factories Json All Interface → List (List ℕ)
  names [] = []
  names ((name, f) ∷ r) = name ∷ names r

  unfoldable pub describe : Factories Json All Interface → List (List ℕ × List ℕ)
  describe [] = []
  describe ((name, f) ∷ r) = (name, f.description) ∷ describe r
