-- ===== src/Asn1/Oid.antt =====
-- Object identifiers of src/dpapi_ng/_asn1.py: _encode_object_identifier and
-- _read_asn1_object_identifier, with str(i), int() and split(".") of the standard library. int() is
-- that of ASCII digits: of the blanks, signs and other digits that Python takes besides, the library
-- passes none.
pub mod Digits
pub mod RoundTrip
use dpapi_ng.Base.{
  ℕ, zero, suc, ◌+◌, ◌-◌, ◌*◌, ◌/◌, ◌%◌, Bool, false, ◌||◌, ◌&&◌, leb, ltb, ◌==◌, Option, List, [],
  ◌∷◌, ◌++◌, reverse, length, drop, map_result, if◌then◌else◌, Result, ok, err, ◌>>=◌, value_error,
  index_error, struct_error, out_of_fuel,
}
use dpapi_ng.Bytes.{Bytes}
use dpapi_ng.Bytes.Text.{Text}
use dpapi_ng.Asn1.OctetNumber.{unpack_octet_number}
use dpapi_ng.Asn1.Tag.{Asn1Tag, Asn1Header, universal_tag, object_identifier}
use dpapi_ng.Asn1.Header.{pack_asn1}
use dpapi_ng.Asn1.Validate.{validate_tag}
use dpapi_ng.Asn1.Integer.{or_tag}

-- str(n): the digits of n, a round for each
unfoldable pub decimal_from : ℕ → ℕ → Text
decimal_from zero n = []
decimal_from (suc fuel) n =
    let more = decimal_from fuel (n / 10) ++ ((48 + n % 10) ∷ []) in
    if ltb n 10 then (48 + n) ∷ [] else more

unfoldable pub decimal : ℕ → Text
decimal n = decimal_from (suc n) n

-- int(part)
unfoldable pub int_from : ℕ → Text → Result ℕ
int_from acc [] = ok acc
int_from acc (c ∷ s) =
    let rest = int_from (acc * 10 + (c - 48)) s in
    if leb 48 c && leb c 57 then rest else err value_error

unfoldable pub int_of : Text → Result ℕ
int_of [] = err value_error
int_of (c ∷ s) = int_from 0 (c ∷ s)

-- text.split("."): the first part and the others
unfoldable pub split_dot : Text → Text × List Text
split_dot [] = ([], [])
split_dot (c ∷ s) =
    let (part, parts) = split_dot s in if c == 46 then ([], part ∷ parts) else (c ∷ part, parts)

-- ".".join([str(i) for i in ids])
unfoldable pub dotted : List ℕ → Text
dotted [] = []
dotted (a ∷ []) = decimal a
dotted (a ∷ b ∷ ids) = decimal a ++ (46 ∷ dotted (b ∷ ids))

unfoldable pub parse_arcs : Text → Result (List ℕ)
parse_arcs oid = let (part, parts) = split_dot oid in map_result int_of (part ∷ parts)

-- while cmp_data > 0x7F
unfoldable pub arc_loop : ℕ → ℕ → Bytes → Result Bytes
arc_loop zero cmp_data result = err out_of_fuel
arc_loop (suc fuel) cmp_data result =
    let rest = arc_loop fuel (cmp_data / 128) (result ++ ((cmp_data / 128 % 128 + 128) ∷ [])) in
    if ltb 127 cmp_data then rest else ok result

-- for cmp_data in cmps
unfoldable pub append_arcs : List ℕ → Bytes → Result Bytes
append_arcs [] result = ok result
append_arcs (cmp_data ∷ cmps) result = do
  result' ← arc_loop (suc cmp_data) cmp_data (result ++ (cmp_data % 128 ∷ []))
  append_arcs cmps result'

unfoldable pub encode_arcs : List ℕ → Result Bytes
encode_arcs [] = err index_error
encode_arcs (a ∷ []) = if ltb 39 a then err value_error else err index_error
encode_arcs (a ∷ b ∷ arcs) =
    if ltb 39 a || ltb 39 b
    then err value_error
    else do result ← append_arcs (reverse ((40 * a + b) ∷ arcs)) []; ok (reverse result)

unfoldable pub encode_object_identifier : Text → Result Bytes
encode_object_identifier oid = do arcs ← parse_arcs oid; encode_arcs arcs

unfoldable pub pack_object_identifier : Text → Option Asn1Tag → Result Bytes
pack_object_identifier value tag = do
  octets ← encode_object_identifier value
  pack_asn1 (or_tag tag (universal_tag object_identifier false)) octets

-- while idx != len(raw_oid), on the octets from idx on
unfoldable pub read_arcs : ℕ → Bytes → Result (List ℕ)
read_arcs fuel [] = ok []
read_arcs zero (b ∷ view) = err out_of_fuel
read_arcs (suc fuel) (b ∷ view) = do
  (oid, octet_len) ← unpack_octet_number (b ∷ view)
  ids ← read_arcs fuel (drop octet_len (b ∷ view))
  ok (oid ∷ ids)

unfoldable pub arcs_of : Bytes → Result (List ℕ)
arcs_of [] = err struct_error
arcs_of (first_element ∷ view) = do
  let second_element = first_element % 40
  ids ← read_arcs (length view) view
  ok ((first_element - second_element) / 40 ∷ second_element ∷ ids)

unfoldable pub read_object_identifier :
    Bytes → Option Asn1Tag → Option Asn1Header → Result (Text × ℕ)
read_object_identifier view tag header = do
  (raw_oid, consumed) ← validate_tag view tag (universal_tag object_identifier false) header
  ids ← arcs_of raw_oid
  ok (dotted ids, consumed)
