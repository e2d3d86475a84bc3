-- ===== src/Json/Tests.antt =====
-- Runs of the readers on small documents.
use wasm_extensions.Prelude.{ℕ, ◌+◌, Bool, true, false, ◌≡◌, refl, some, ◌↔◌, codes, bytes_eq}
use wasm_extensions.Json.{ok, value_as_unsigned, array_iterate, visit_elements}
use wasm_extensions.Json.Iterate.{Accepts, array_iterate-Accepts}
use wasm_extensions.Json.Toy.{
  Value, number, string, array, object, nil, cons, end, field, discarded, toy,
}

abbrev number_text : Value
number_text = string (codes "42")

abbrev list_document : Value
list_document = object (field (codes "k") (array (cons (number 2) (cons (number 3) nil))) end)

-- A visitor that adds up numbers.
abbrev sum_visitor : Value → ℕ → Bool × ℕ
sum_visitor (number n) s = (true, s + n)
sum_visitor v s = (false, s)

array_iterate-Accepts_example :
    (array_iterate (toy discarded) list_document (codes "k") sum_visitor 0 ≡ (true, 5))
    ↔ Accepts (toy discarded) list_document (codes "k") sum_visitor 0 5
array_iterate-Accepts_example =
    array_iterate-Accepts (toy discarded) list_document (codes "k") sum_visitor 0 5

sums_list : array_iterate (toy discarded) list_document (codes "k") sum_visitor 0 ≡ (true, 5)
unfolding array_iterate visit_elements bytes_eq
sums_list = refl

reads_text : value_as_unsigned (toy discarded) number_text ≡ (some 42, ok)
unfolding value_as_unsigned
reads_text = refl
