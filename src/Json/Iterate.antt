-- ===== src/Json/Iterate.antt =====
-- What it means that an iteration over an optional field returns true.
use wasm_extensions.Prelude.{
  Bool, true, false, none, some, ◌≡◌, refl, ap, ◌∙◌, Bytes, ◌∷◌, [], List, ◌⊎◌, inl, inr, ◌↔◌,
  Option-cases, Bool-cases, if◌then◌else◌,
}
use mathlib.Core.Path.{subst}
use wasm_extensions.Json.{JsonLib, visit_elements, array_iterate}

module _ {ℓ} (lib : JsonLib) {S : Type ℓ} where
  open lib use {Json, is_array, items, find}

  -- The visitor accepts every element in order and takes the state from the first to the last.
  pub data Visits (visitor : Json → S → Bool × S) : List (Bytes × Json) → S → S → Type ℓ where
    visits_none : (s : S) → Visits visitor [] s s
    visits_more :
        (key : Bytes) (elt : Json) (rest : List (Bytes × Json)) (s s' t : S)
        → visitor elt s ≡ (true, s')
        → Visits visitor rest s' t
        → Visits visitor ((key, elt) ∷ rest) s t

  -- The field is missing and nothing is visited, or it is an array whose elements are all accepted.
  abbrev pub Accepts : Json → Bytes → (Json → S → Bool × S) → S → S → Type ℓ
  Accepts j field visitor s t =
      ((find j field ≡ none) × (s ≡ t))
      ⊎ ((it : Json) × (find j field ≡ some it)
          × (is_array it ≡ true)
          × Visits visitor (items it) s t)

  visit_elements-Visits :
      (visitor : Json → S → Bool × S) (elts : List (Bytes × Json)) (s t : S)
      → visit_elements lib visitor elts s ≡ (true, t)
      → Visits visitor elts s t
  unfolding visit_elements
  visit_elements-Visits visitor [] s t e =
      subst (Visits visitor [] s) (ap (λ p. p.1) e) (visits_none s)
  visit_elements-Visits visitor ((key, elt) ∷ rest) s t e = elim (Bool-cases (visitor elt s).0) [
    | inl yes_ ↦
        visits_more key elt rest s (visitor elt s).1 t (λ i. (yes_ i, (visitor elt s).1))
          (visit_elements-Visits visitor rest (visitor elt s).1 t (rw (yes_, visit_elements) at e))
    | inr no_ ↦ absurd (cc (ap (λ p. p.0) (rw (no_, visit_elements) at e)))
  ]

  Visits-visit_elements :
      (visitor : Json → S → Bool × S) {elts : List (Bytes × Json)} {s t : S}
      → Visits visitor elts s t
      → visit_elements lib visitor elts s ≡ (true, t)
  unfolding visit_elements
  Visits-visit_elements visitor (visits_none s) = refl
  Visits-visit_elements visitor (visits_more key elt rest s s' t e more) =
      rw (ap (λ p. p.0) e, visit_elements)
        (ap (visit_elements lib visitor rest) (ap (λ p. p.1) e)
          ∙ Visits-visit_elements visitor more)

  -- `JsonArrayIterate` returns true and leaves the visitor's variables at `t` exactly when the
  -- field is missing and nothing was visited, or the field is an array and the visitor accepted
  -- every element, in order, on the way from `s` to `t`.
  pub array_iterate-Accepts :
      (j : Json) (field : Bytes) (visitor : Json → S → Bool × S) (s t : S)
      → (array_iterate lib j field visitor s ≡ (true, t)) ↔ Accepts j field visitor s t
  unfolding array_iterate
  array_iterate-Accepts j field visitor s t = (accepts, accepted)
    where
      found :
          (it : Json)
          → find j field ≡ some it
          → (if is_array it then visit_elements lib visitor (items it) s else (false, s))
            ≡ (true, t)
          → (it : Json) × (find j field ≡ some it)
            × (is_array it ≡ true)
            × Visits visitor (items it) s t
      found it f e = elim (Bool-cases (is_array it)) [
        | inl a ↦ (it, f, a, visit_elements-Visits visitor (items it) s t (rw a at e))
        | inr a ↦ absurd (cc (ap (λ p. p.0) (rw a at e)))
      ]

      accepts : array_iterate lib j field visitor s ≡ (true, t) → Accepts j field visitor s t
      accepts e = elim (Option-cases (find j field)) [
        | inl f ↦ inl (f, ap (λ p. p.1) (rw (f, array_iterate) at e))
        | inr (it, f) ↦ inr (found it f (rw (f, array_iterate) at e))
      ]

      accepted : Accepts j field visitor s t → array_iterate lib j field visitor s ≡ (true, t)
      accepted (inl (f, e)) = rw (f, array_iterate) (λ i. (true, e i))
      accepted (inr (it, f, a, v)) = rw (f, array_iterate, a) (Visits-visit_elements visitor v)
