-- ===== src/Asn1/OctetNumber.antt =====
-- _pack_asn1_octet_number and _unpack_asn1_octet_number of src/dpapi_ng/_asn1.py: numbers in groups
-- of seven bits, as high tag numbers and object identifiers have them.
pub mod RoundTrip
use dpapi_ng.Base.{
  ℕ, zero, suc, ◌+◌, ◌*◌, ◌/◌, ◌%◌, Bool, ◌==◌, List, [], ◌∷◌, ◌++◌, reverse, if◌then◌else◌, Result,
  ok, err, not_enough_data, out_of_fuel, ◌>>=◌,
}
use dpapi_ng.Bytes.{Bytes}

-- The octet that the loop appends: the MSB is set where it is not the first one.
abbrev pub octet_value : ℕ → Bytes → ℕ
octet_value num [] = num % 128
octet_value num (o ∷ os) = num % 128 + 128

-- while num
unfoldable pub pack_loop : ℕ → ℕ → Bytes → Result Bytes
pack_loop zero num num_octets = err out_of_fuel
pack_loop (suc fuel) num num_octets =
    let rest = pack_loop fuel (num / 128) (num_octets ++ (octet_value num num_octets ∷ [])) in
    if num == 0 then ok num_octets else rest

-- The loop makes at most one round for each unit of the number, and one to end.
unfoldable pub pack_octet_number : ℕ → Result Bytes
pack_octet_number num = do num_octets ← pack_loop (suc num) num []; ok (reverse num_octets)

-- while True: the value so far, and the number of octets read
unfoldable pub unpack_from : ℕ → ℕ → Bytes → Result (ℕ × ℕ)
unpack_from i idx [] = err not_enough_data
unpack_from i idx (element ∷ view) =
    let i' = i * 128 + element % 128 in
    let rest = unpack_from i' (suc idx) view in
    if element / 128 % 2 == 0 then ok (i', suc idx) else rest

unfoldable pub unpack_octet_number : Bytes → Result (ℕ × ℕ)
unpack_octet_number view = unpack_from 0 0 view
