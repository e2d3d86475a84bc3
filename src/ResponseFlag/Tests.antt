-- ===== src/ResponseFlag/Tests.antt =====
-- Runs of the printer of response flags.
use wasm_extensions.Prelude.{◌≡◌, refl, if◌then◌else◌, is_empty, codes}
use wasm_extensions.ResponseFlag.{
  append_string, add_flags, digits_of, to_string, add_overflow, parse_response_flag,
}
use wasm_extensions.ResponseFlag.Names.{join, names_of, parse_response_flag-join}

parse_response_flag-join_example :
    parse_response_flag 6 ≡ (if is_empty (join (names_of 6)) then codes "-" else join (names_of 6))
parse_response_flag-join_example = parse_response_flag-join 6

two_flags : parse_response_flag 6 ≡ codes "UH,UT"
unfolding parse_response_flag add_flags append_string add_overflow
two_flags = refl

no_flag : parse_response_flag 0 ≡ codes "-"
unfolding parse_response_flag add_flags append_string add_overflow
no_flag = refl

unnamed_flag : parse_response_flag 134217729 ≡ codes "LH,134217729"
unfolding parse_response_flag add_flags append_string add_overflow to_string digits_of
unnamed_flag = refl
