-- ===== src/Tests/Descriptor.antt =====
-- Security descriptors at concrete inputs.
use dpapi_ng.Base.{
  ℕ, ◌-◌, ◌≡◌, refl, arith, ◌&&◌, leb, ltb, Option, none, some, [], ◌∷◌, ◌++◌, slice, drop,
  if◌then◌else◌, ok,
}
use dpapi_ng.Bytes.{Bytes, from_le, from_be, to_bytes, to_bytes_be}
use dpapi_ng.Bytes.Text.{text}
use dpapi_ng.SecurityDescriptor.{Sid, parse_sid, sid_to_bytes, acl_part, acl_to_bytes, sd_to_bytes}
use dpapi_ng.SecurityDescriptor.Offsets.{sd_to_bytes_offsets}
use dpapi_ng.SecurityDescriptor.SidBytes.{sid_layout, sid_to_bytes-layout}

-- The digits of ASCII.
abbrev digit : ℕ → Option ℕ
digit c = if leb 48 c && ltb c 58 then some (c - 48) else none

abbrev user_sid : Sid
user_sid = record { revision = 1; authority = 5; sub_authorities = 21 ∷ 3998 ∷ 1104 ∷ [] }

parsed : parse_sid digit (text "S-1-5-21-3998-1104") ≡ ok user_sid
unfolding parse_sid
parsed = refl

sid_to_bytes-layout_example :
    (sid_to_bytes digit (text "S-1-5-21-3998-1104") ≡ ok (sid_layout user_sid))
    × (from_be (slice 2 8 (sid_layout user_sid)) ≡ 5)
sid_to_bytes-layout_example =
    sid_to_bytes-layout digit (text "S-1-5-21-3998-1104") user_sid parsed (omega arith)
      (omega arith, (omega arith, (omega arith, tt)))

abbrev system : Bytes
system = 1 ∷ 1 ∷ 0 ∷ 0 ∷ 0 ∷ 0 ∷ 0 ∷ 5 ∷ 18 ∷ 0 ∷ 0 ∷ 0 ∷ []

abbrev dacl_bytes : Bytes
dacl_bytes = 2 ∷ 0 ∷ 9 ∷ 0 ∷ 1 ∷ 0 ∷ 0 ∷ 0 ∷ 7 ∷ []

system_sid : sid_to_bytes digit (text "S-1-5-18") ≡ ok system
unfolding sid_to_bytes parse_sid to_bytes to_bytes_be
system_sid = refl

no_sacl : acl_part digit none ≡ ok []
unfolding acl_part
no_sacl = refl

some_dacl : acl_part digit (some ((7 ∷ []) ∷ [])) ≡ ok dacl_bytes
unfolding acl_part acl_to_bytes to_bytes
some_dacl = refl

sd_to_bytes_offsets_example :
    (sd : Bytes) × (sd_to_bytes digit
        (text "S-1-5-18")
        (text "S-1-5-18")
        none
        (some ((7 ∷ []) ∷ []))
      ≡ ok sd)
    × (drop (from_le (slice 4 8 sd)) sd ≡ system ++ system)
    × (drop (from_le (slice 8 12 sd)) sd ≡ system)
    × (from_le (slice 12 16 sd) ≡ 0)
    × (from_le (slice 16 20 sd) ≡ 20)
    × (drop 20 sd ≡ dacl_bytes ++ (system ++ system))
sd_to_bytes_offsets_example =
    sd_to_bytes_offsets digit (text "S-1-5-18") (text "S-1-5-18") none (some ((7 ∷ []) ∷ [])) []
      dacl_bytes system system no_sacl some_dacl system_sid system_sid (omega arith)
