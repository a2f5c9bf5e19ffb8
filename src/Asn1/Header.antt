-- ===== src/Asn1/Header.antt =====
-- _pack_asn1 and _read_asn1_header of src/dpapi_ng/_asn1.py: the identifier and length octets.
pub mod LengthOctets
pub mod RoundTrip
use dpapi_ng.Base.{
  ℕ, zero, suc, ◌+◌, ◌*◌, ◌/◌, ◌%◌, ◌^◌, Bool, not, ◌&&◌, ltb, ◌==◌, List, [], ◌∷◌, ◌++◌, reverse,
  length, drop, if◌then◌else◌, Result, ok, err, ◌>>=◌, value_error, not_enough_data, out_of_fuel,
}
use dpapi_ng.Bytes.{Bytes}
use dpapi_ng.Asn1.OctetNumber.{pack_octet_number, unpack_octet_number}
use dpapi_ng.Asn1.Tag.{Asn1Tag, Asn1Header, universal, last_type_number}

-- The first octet, where `low` is in its lowest five bits.
abbrev pub identifier_octet : Asn1Tag → ℕ → ℕ
identifier_octet t low = t.tag_class * 64 + (if t.is_constructed then 32 else 0) + low

unfoldable pub pack_identifier : Asn1Tag → Result Bytes
pack_identifier t =
    if ltb 3 t.tag_class
    then err value_error
    else if ltb t.tag_number 31
    then ok (identifier_octet t t.tag_number ∷ [])
    else do octets ← pack_octet_number t.tag_number; ok (identifier_octet t 31 ∷ octets)

-- while length
unfoldable pub length_loop : ℕ → ℕ → Bytes → Result Bytes
length_loop zero n length_octets = err out_of_fuel
length_loop (suc fuel) n length_octets =
    let rest = length_loop fuel (n / 256) (length_octets ++ (n % 256 ∷ [])) in
    if n == 0 then ok length_octets else rest

-- A length has fewer than 128 octets, so the MSB is added to their number.
unfoldable pub pack_length : ℕ → Result Bytes
pack_length n = if ltb n 128 then ok (n ∷ []) else do
  length_octets ← length_loop (suc n) n []
  ok ((length length_octets + 128) ∷ reverse length_octets)

unfoldable pub pack_asn1 : Asn1Tag → Bytes → Result Bytes
pack_asn1 t content = do
  identifier_octets ← pack_identifier t
  length_octets ← pack_length (length content)
  ok (identifier_octets ++ length_octets ++ content)

-- for idx in range(1, length_octets), with the number of octets left and the length so far
unfoldable pub read_length_octets : ℕ → Bytes → ℕ → Result ℕ
read_length_octets zero view acc = ok acc
read_length_octets (suc left) [] acc = err not_enough_data
read_length_octets (suc left) (octet ∷ view) acc =
    read_length_octets left view (acc + octet * 256 ^ left)

-- The length and the number of octets that it takes
unfoldable pub read_length : Bytes → Result (ℕ × ℕ)
read_length [] = err not_enough_data
read_length (octet ∷ view) =
    if octet == 128
    then err value_error
    else if octet / 128 % 2 == 0
    then ok (octet, 1)
    else do n ← read_length_octets (octet % 128) view 0; ok (n, 1 + octet % 128)

-- The tag number and the number of octets of the tag
unfoldable pub read_tag_number : ℕ → Bytes → Result (ℕ × ℕ)
read_tag_number octet1 view =
    if octet1 % 32 == 31
    then (do (n, octet_count) ← unpack_octet_number view; ok (n, 1 + octet_count))
    else ok (octet1 % 32, 1)

-- TypeTagNumber(tag_number) where the class is UNIVERSAL
abbrev is_unknown_type : ℕ → ℕ → Bool
is_unknown_type tag_class tag_number = tag_class == universal && ltb last_type_number tag_number

unfoldable pub read_header : Bytes → Result Asn1Header
read_header [] = err not_enough_data
read_header (octet1 ∷ view) = do
  (tag_number, tag_octets) ← read_tag_number octet1 view
  let tag_class = octet1 / 64 % 4
  (if is_unknown_type tag_class tag_number then err value_error else do
    (n, length_octets) ← read_length (drop tag_octets (octet1 ∷ view))
    ok (record {
      tag = record {
        tag_class = tag_class;
        tag_number = tag_number;
        is_constructed = not (octet1 / 32 % 2 == 0);
      };
      tag_length = tag_octets + length_octets;
      length = n;
    }))
