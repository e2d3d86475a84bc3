-- ===== src/Base64/Tests.antt =====
-- Runs of the codec.
use mathlib.Core.Option
use wasm_extensions.Prelude.{[], codes, ◌≡◌, refl, true, false, length, Bytes, IsBytes, arith}
use wasm_extensions.Base64.{encode, returned, decode_without_padding}
use wasm_extensions.Base64.Groups.{groups}
use wasm_extensions.Base64.Ungroup.{ungroup}
use wasm_extensions.Base64.Encode.{encode-groups}
use wasm_extensions.Base64.Padding.{unpadded}
use wasm_extensions.Base64.Safety.{decode-ungroup}
use wasm_extensions.Base64.RoundTrip.{decode-encode}
use wasm_extensions.Base64.Canonical.{encode-decode}

encode_admin : encode (codes "ok:test") true ≡ codes "b2s6dGVzdA=="
unfolding encode
encode_admin = refl

decode_admin : decode_without_padding 4294967296 (codes "b2s6dGVzdA==") ≡ returned (codes "ok:test")
unfolding decode_without_padding
decode_admin = refl

decode_pads : decode_without_padding 4294967296 (codes "==") ≡ returned []
unfolding decode_without_padding
decode_pads = refl

abbrev credentials : Bytes
credentials = codes "ok:test"

abbrev encoded : Bytes
encoded = codes "b2s6dGVzdA=="

credentials-IsBytes : IsBytes credentials
credentials-IsBytes = omega arith

encoded-IsBytes : IsBytes encoded
encoded-IsBytes = omega arith

encode-groups_example : encode credentials true ≡ groups true credentials
encode-groups_example = encode-groups credentials true credentials-IsBytes

decode-ungroup_example :
    decode_without_padding 4294967296 encoded
    ≡ returned (Option.get_or (ungroup (unpadded encoded)) [])
decode-ungroup_example = decode-ungroup 4294967296 encoded encoded-IsBytes (omega arith)

encoded_length : length (encode credentials true) ≡ 12
unfolding encode
encoded_length = refl

decode-encode_example :
    decode_without_padding 4294967296 (encode credentials true) ≡ returned credentials
decode-encode_example =
    decode-encode 4294967296 credentials true credentials-IsBytes (omega (arith, encoded_length))

encode-decode_example : encode credentials false ≡ unpadded encoded
encode-decode_example =
    encode-decode 4294967296 encoded b'o' (codes "k:test") encoded-IsBytes (omega arith)
      decode_admin
