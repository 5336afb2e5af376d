-- ===== src/Plugin/Registry/Laws.antt =====
-- What a registry answers after a registration.
use rag_cpp.Common.{
  ℕ, ◌≡◌, refl, true, false, some, List, [], ◌∷◌, if◌then◌else◌, arith, Bool-cases, inl, inr, ltb,
  ◌∙◌,
}
use rag_cpp.Common.SortedMap.{find, find-insert_or_assign}
use rag_cpp.Core.{Result, text_order, text_eq, text_lt, text_lt_asym, text_eq_sound, text_eq_iff}
use rag_cpp.Plugin.Registry.{Factories, register_described, create}

ltb_same : (a b : ℕ) → ltb a b ≡ false → ltb b a ≡ false → a ≡ b
ltb_same a b h k = ground arith

text_lt_same : (s t : List ℕ) → text_lt s t ≡ false → text_lt t s ≡ false → s ≡ t
unfolding text_lt
text_lt_same [] [] h k = refl
text_lt_same [] (b ∷ t) h k = ground arith
text_lt_same (a ∷ s) [] h k = ground arith
text_lt_same (a ∷ s) (b ∷ t) h k =
    let p = ltb_same a b (ground arith) (ground arith) in
    let q = text_lt_same s t (ground arith) (ground arith) in cc

text_lt_irreflexive : (s : List ℕ) → text_lt s s ≡ false
text_lt_irreflexive s = elim (Bool-cases (text_lt s s)) [
  | inl e ↦ cc (text_lt_asym s s e)
  | inr e ↦ e
]

eq_not_lt : (k j : List ℕ) → text_eq k j ≡ true → (text_lt k j ≡ false) × (text_lt j k ≡ false)
eq_not_lt k j e = rw (text_eq_sound k j e) (text_lt_irreflexive j, text_lt_irreflexive j)

module _ {Json All Interface : Type 0} where
  find-register_described :
      (j k : List ℕ) (f : Json → All → Result Interface) (d : List ℕ)
      (r : Factories Json All Interface)
      → find text_order k (register_described j f d r).1 ≡ (
          if text_eq k j then some (record { build = f; description = d }) else find text_order k r)
  unfolding register_described
  find-register_described j k f d r =
      find-insert_or_assign text_order text_lt_same j k (record { build = f; description = d }) r
      ∙ ground (arith, eq_not_lt k j, text_lt_same k j, text_eq_iff k j)

  -- After `register_described` under a name, `create` of that name runs the new factory, also where
  -- another was there before, and every other name is created as before.
  pub create-register_described :
      (j k : List ℕ) (f : Json → All → Result Interface) (d : List ℕ) (config : Json) (all : All)
      (r : Factories Json All Interface)
      → create k config all (register_described j f d r).1
        ≡ (if text_eq k j then f config all else create k config all r)
  unfolding create
  create-register_described j k f d config all r = elim (Bool-cases (text_eq k j)) [
    | inl e ↦ rw (find-register_described j k f d r) (rw e refl)
    | inr e ↦ rw (find-register_described j k f d r) (rw e refl)
  ]
