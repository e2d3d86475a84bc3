-- ===== src/Json/Toy.antt =====
-- A small JSON library, to show that the parameter of the models can be met: texts are parsed to a
-- document that is given, and numbers are read as decimals.
use wasm_extensions.Prelude.{
  ℕ, ◌+◌, ◌*◌, ◌-◌, Bool, true, false, ◌&&◌, Option, none, some, List, [], ◌∷◌, if◌then◌else◌, leb,
  Bytes, bytes_eq,
}
use wasm_extensions.Json.{JsonLib}

mutual
  pub data Value : Type 0 where
    discarded : Value
    bool : Bool → Value
    number : ℕ → Value
    string : Bytes → Value
    array : Items → Value
    object : Fields → Value

  pub data Items : Type 0 where
    nil : Items
    cons : Value → Items → Items

  pub data Fields : Type 0 where
    end : Fields
    field : Bytes → Value → Fields → Fields

abbrev elements : Items → List (Bytes × Value)
elements nil = []
elements (cons v r) = ([], v) ∷ elements r

abbrev members : Fields → List (Bytes × Value)
members end = []
members (field k v r) = (k, v) ∷ members r

abbrev lookup : Bytes → List (Bytes × Value) → Option Value
lookup k [] = none
lookup k ((j, v) ∷ r) = if bytes_eq j k then some v else lookup k r

abbrev decimal_from : ℕ → Bytes → Option ℕ
decimal_from n [] = some n
decimal_from n (c ∷ r) =
    if leb b'0' c && leb c b'9' then decimal_from (10 * n + (c - b'0')) r else none

abbrev decimal : Bytes → Option ℕ
decimal [] = none
decimal (c ∷ r) = decimal_from 0 (c ∷ r)

abbrev pub toy : Value → JsonLib
toy document = record {
  Json = Value;
  parse = λ text. document;
  is_discarded = elim [ discarded ↦ true | _ ↦ false ];
  is_object = elim [ object f ↦ true | _ ↦ false ];
  is_array = elim [ array f ↦ true | _ ↦ false ];
  is_number = elim [ number f ↦ true | _ ↦ false ];
  is_string = elim [ string f ↦ true | _ ↦ false ];
  is_boolean = elim [ bool f ↦ true | _ ↦ false ];
  get_signed = elim [ number n ↦ n | _ ↦ 0 ];
  get_unsigned = elim [ number n ↦ n | _ ↦ 0 ];
  get_string = elim [ string s ↦ s | _ ↦ [] ];
  get_bool = elim [ bool b ↦ b | _ ↦ false ];
  find = λ j k. elim j [ object f ↦ lookup k (members f) | _ ↦ none ];
  items = elim [ object f ↦ members f | array r ↦ elements r | _ ↦ [] ];
  simple_atoi = decimal;
  simple_atoi_signed = decimal;
}
