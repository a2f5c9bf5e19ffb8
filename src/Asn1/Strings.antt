-- ===== src/Asn1/Strings.antt =====
-- The values of src/dpapi_ng/_asn1.py whose content is taken as it is: _pack_asn1_boolean,
-- _pack_asn1_octet_string and the _read_asn1_* functions of booleans, strings, sequences and sets.
use dpapi_ng.Base.{
  ℕ, Bool, true, false, not, ◌==◌, ◌||◌, Option, [], ◌∷◌, if◌then◌else◌, Result, ok, ◌>>=◌,
}
use dpapi_ng.Bytes.{Bytes}
use dpapi_ng.Bytes.Text.{Text}
use dpapi_ng.Bytes.Utf8.{decode_utf8}
use dpapi_ng.Asn1.Tag.{
  Asn1Tag, Asn1Header, universal_tag, boolean, octet_string, generalized_time, sequence, set,
  utf8_string,
}
use dpapi_ng.Asn1.Header.{pack_asn1}
use dpapi_ng.Asn1.Validate.{validate_tag}
use dpapi_ng.Asn1.Integer.{or_tag}

unfoldable pub pack_boolean : Bool → Option Asn1Tag → Result Bytes
pack_boolean value tag =
    pack_asn1 (or_tag tag (universal_tag boolean false)) ((if value then 255 else 0) ∷ [])

unfoldable pub pack_octet_string : Bytes → Option Asn1Tag → Result Bytes
pack_octet_string b_data tag = pack_asn1 (or_tag tag (universal_tag octet_string false)) b_data

-- raw_bool.tobytes().replace(b"\x00", b"") != b""
unfoldable pub any_set : Bytes → Bool
any_set [] = false
any_set (b ∷ bs) = not (b == 0) || any_set bs

unfoldable pub read_boolean : Bytes → Option Asn1Tag → Option Asn1Header → Result (Bool × ℕ)
read_boolean view tag header = do
  (raw_bool, consumed) ← validate_tag view tag (universal_tag boolean false) header
  ok (any_set raw_bool, consumed)

unfoldable pub read_generalized_time :
    Bytes → Option Asn1Tag → Option Asn1Header → Result (Text × ℕ)
read_generalized_time view tag header = do
  (raw_time, consumed) ← validate_tag view tag (universal_tag generalized_time false) header
  time ← decode_utf8 raw_time
  ok (time, consumed)

unfoldable pub read_octet_string : Bytes → Option Asn1Tag → Option Asn1Header → Result (Bytes × ℕ)
read_octet_string view tag header = validate_tag view tag (universal_tag octet_string false) header

unfoldable pub read_sequence : Bytes → Option Asn1Tag → Option Asn1Header → Result (Bytes × ℕ)
read_sequence view tag header = validate_tag view tag (universal_tag sequence true) header

unfoldable pub read_set : Bytes → Option Asn1Tag → Option Asn1Header → Result (Bytes × ℕ)
read_set view tag header = validate_tag view tag (universal_tag set true) header

unfoldable pub read_utf8_string : Bytes → Option Asn1Tag → Option Asn1Header → Result (Text × ℕ)
read_utf8_string view tag header = do
  (raw_str, consumed) ← validate_tag view tag (universal_tag utf8_string false) header
  str ← decode_utf8 raw_str
  ok (str, consumed)
