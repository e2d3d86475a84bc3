-- ===== src/Json/Values.antt =====
-- When the typed readers of json_util.cc hand out a value.
use wasm_extensions.Prelude.{true, none, is_some, ◌≡◌, arith, []}
use wasm_extensions.Json.{
  JsonLib, Parsed, ok, is_ok, value_as_signed, value_as_unsigned, value_as_string, value_as_bool,
  value_as_object, value_as_strings,
}

-- The detail is `OK` exactly when there is a value; callers take the value after the first test.
abbrev pub Consistent {ℓ} : {A : Type ℓ} → Parsed A → Type 0
Consistent parsed = is_ok parsed.1 ≡ is_some parsed.0

module _ (lib : JsonLib) where
  open lib use {Json, is_array, items}

  -- For every JSON value, the readers of numbers, a string, a Boolean and an object report `OK`
  -- exactly when they have a value, so `first.value()` after a test for `OK` never throws.
  pub value_as-Consistent :
      (j : Json)
      → Consistent (value_as_signed lib j)
        × Consistent (value_as_unsigned lib j)
        × Consistent (value_as_string lib j)
        × Consistent (value_as_bool lib j)
        × Consistent (value_as_object lib j)
  unfolding is_ok value_as_signed value_as_unsigned value_as_string value_as_bool value_as_object
  value_as-Consistent j = (ground arith, ground arith, ground arith, ground arith, ground arith)

  -- The reader of an array of strings is the exception: for an empty array it reports `OK` and has
  -- no value.
  pub value_as_strings_empty :
      (j : Json) → is_array j ≡ true → items j ≡ [] → value_as_strings lib j ≡ (none, ok)
  unfolding value_as_strings
  value_as_strings_empty j a e = rw (a, e)
