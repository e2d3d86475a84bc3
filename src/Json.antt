-- ===== src/Json.antt =====
-- extensions/common/wasm/json_util.{h,cc}: the typed readers of JSON values and the iteration over
-- optional fields. The JSON library (nlohmann) and `absl::SimpleAtoi` are not part of the
-- repository: they are the record `JsonLib`, an argument of every definition.
pub mod Values
pub mod Iterate
pub mod Toy
mod Tests
use mathlib.Core.Option
use wasm_extensions.Prelude.{
  ℕ, Bool, true, false, ◌||◌, not, Option, none, some, List, [], ◌∷◌, ◌++◌, if◌then◌else◌, Bytes,
  codes, bytes_eq,
}

-- The operations of the JSON library that the repository uses. `get_unsigned` is
-- `get<uint64_t>()`, `simple_atoi` is `absl::SimpleAtoi` at `uint64_t`, and their signed versions
-- give the bits of an `int64_t`; `find` is `none` for
-- `end()`; `items` are the keys and values of an array or an object in iteration order.
pub record JsonLib : Type 1 where
  pub Json : Type 0
  pub parse : Bytes → Json
  pub is_discarded : Json → Bool
  pub is_object : Json → Bool
  pub is_array : Json → Bool
  pub is_number : Json → Bool
  pub is_string : Json → Bool
  pub is_boolean : Json → Bool
  pub get_signed : Json → ℕ
  pub get_unsigned : Json → ℕ
  pub get_string : Json → Bytes
  pub get_bool : Json → Bool
  pub find : Json → Bytes → Option Json
  pub items : Json → List (Bytes × Json)
  pub simple_atoi : Bytes → Option ℕ
  pub simple_atoi_signed : Bytes → Option ℕ

-- `JsonParserResultDetail`
pub data JsonParserResultDetail : Type 0 where
  unknown ok out_of_range type_error invalid_value : JsonParserResultDetail

unfoldable pub is_ok : JsonParserResultDetail → Bool
is_ok ok = true
is_ok d = false

abbrev pub Parsed {ℓ} : Type ℓ → Type ℓ
Parsed A = Option A × JsonParserResultDetail

module _ (lib : JsonLib) where
  open lib use {
    Json, parse, is_discarded, is_object, is_array, is_number, is_string, is_boolean, get_signed,
    get_unsigned, get_string, get_bool, find, items, simple_atoi, simple_atoi_signed,
  }

  -- `JsonParse`
  unfoldable pub json_parse : Bytes → Option Json
  json_parse str =
      let result = parse str in
      if is_discarded result || not (is_object result) then none else some result

  -- `JsonValueAs<int64_t>`
  unfoldable pub value_as_signed : Json → Parsed ℕ
  value_as_signed j =
      if is_number j
      then (some (get_signed j), ok)
      else (if is_string j
          then elim (simple_atoi_signed (get_string j)) [
            | some result ↦ (some result, ok)
            | none ↦ (none, invalid_value)
          ]
          else (none, type_error))

  -- `JsonValueAs<uint64_t>`
  unfoldable pub value_as_unsigned : Json → Parsed ℕ
  value_as_unsigned j =
      if is_number j
      then (some (get_unsigned j), ok)
      else (if is_string j
          then elim (simple_atoi (get_string j)) [
            | some result ↦ (some result, ok)
            | none ↦ (none, invalid_value)
          ]
          else (none, type_error))

  -- `JsonValueAs<std::string>`, and `JsonValueAs<std::string_view>`, which reads alike.
  unfoldable pub value_as_string : Json → Parsed Bytes
  value_as_string j = if is_string j then (some (get_string j), ok) else (none, type_error)

  -- `JsonValueAs<bool>`
  unfoldable pub value_as_bool : Json → Parsed Bool
  value_as_bool j =
      if is_boolean j
      then (some (get_bool j), ok)
      else (if is_string j
          then (if bytes_eq (get_string j) (codes "true")
              then (some true, ok)
              else (if bytes_eq (get_string j) (codes "false")
                  then (some false, ok)
                  else (none, invalid_value)))
          else (none, type_error))

  -- `JsonValueAs<JsonObject>`
  unfoldable pub value_as_object : Json → Parsed Json
  value_as_object j = if is_object j then (some j, ok) else (none, type_error)

  -- The loop of `JsonValueAs<std::vector<std::string_view>>`, over the values collected so far.
  strings_from : List (Bytes × Json) → Option (List Bytes) → Parsed (List Bytes)
  strings_from [] values = (values, ok)
  strings_from ((_, elt) ∷ rest) values =
      if not (is_string elt)
      then (none, type_error)
      else strings_from rest (some (Option.get_or values [] ++ get_string elt ∷ []))

  -- `JsonValueAs<std::vector<std::string_view>>`
  pub value_as_strings : Json → Parsed (List Bytes)
  unfolding strings_from
  value_as_strings j = if is_array j then strings_from (items j) none else (none, type_error)

  -- `JsonGetField<T>`: its detail and its value, if there is one.
  unfoldable pub get_field {ℓ} : {A : Type ℓ} → (Json → Parsed A) → Json → Bytes → Parsed A
  get_field value_as j field = elim (find j field) [
    | none ↦ (none, out_of_range)
    | some it ↦ value_as it
  ]

  -- `value_or`; a field without a value is read as the default only if its detail is not `OK`.
  unfoldable pub value_or {ℓ} : {A : Type ℓ} → Parsed A → A → A → A
  value_or (object, detail) uninitialised v =
      if is_ok detail then elim object [ some a ↦ a | none ↦ uninitialised ] else v

  -- The loop of `JsonArrayIterate`. A visitor's captured variables are the state `S`.
  unfoldable pub visit_elements {ℓ} :
      {S : Type ℓ} → (Json → S → Bool × S) → List (Bytes × Json) → S → Bool × S
  visit_elements visitor [] s = (true, s)
  visit_elements visitor ((_, elt) ∷ rest) s =
      let (accepted, s') = visitor elt s in
      elim accepted [ true ↦ visit_elements visitor rest s' | false ↦ (false, s') ]

  -- `JsonArrayIterate`
  unfoldable pub array_iterate {ℓ} :
      {S : Type ℓ} → Json → Bytes → (Json → S → Bool × S) → S → Bool × S
  array_iterate j field visitor s = elim (find j field) [
    | none ↦ (true, s)
    | some it ↦ if is_array it then visit_elements visitor (items it) s else (false, s)
  ]

  -- The loop of both `JsonObjectIterate`s. A key is a string, so its reading as one succeeds.
  unfoldable pub visit_keys {ℓ} :
      {S : Type ℓ} → (Bytes → S → Bool × S) → List (Bytes × Json) → S → Bool × S
  visit_keys visitor [] s = (true, s)
  visit_keys visitor ((key, _) ∷ rest) s =
      let (accepted, s') = visitor key s in
      elim accepted [ true ↦ visit_keys visitor rest s' | false ↦ (false, s') ]

  -- `JsonObjectIterate` of a field, and of a whole value.
  unfoldable pub object_field_iterate {ℓ} :
      {S : Type ℓ} → Json → Bytes → (Bytes → S → Bool × S) → S → Bool × S
  object_field_iterate j field visitor s = elim (find j field) [
    | none ↦ (true, s)
    | some it ↦ if is_object it then visit_keys visitor (items it) s else (false, s)
  ]

  unfoldable pub object_iterate {ℓ} : {S : Type ℓ} → Json → (Bytes → S → Bool × S) → S → Bool × S
  object_iterate j visitor s = visit_keys visitor (items j) s
