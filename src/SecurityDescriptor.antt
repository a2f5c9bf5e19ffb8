-- ===== src/SecurityDescriptor.antt =====
-- src/dpapi_ng/_security_descriptor.py. The decimal digits of a str, which the pattern and int() of
-- the source take from Unicode, are the parameter `digit`: the value of a code point that is one.
pub mod Offsets
pub mod SidBytes
use dpapi_ng.Base.{
  ℕ, zero, suc, ◌+◌, ◌*◌, Bool, true, false, ◌==◌, leb, Option, none, some, List, [], ◌∷◌, ◌++◌,
  length, drop, map_result, if◌then◌else◌, Result, ok, err, value_error, ◌>>=◌,
}
use dpapi_ng.Bytes.{Bytes, join, to_bytes, to_bytes_be}
use dpapi_ng.Bytes.Text.{Text}

-- sid.split("-"): the first part and the others
abbrev split_dash : Text → Text × List Text
split_dash [] = ([], [])
split_dash (c ∷ s) =
    let (part, parts) = split_dash s in if c == 45 then ([], part ∷ parts) else (c ∷ part, parts)

-- The `$` of the pattern, and int(), allow a newline at the end.
abbrev strip_newline : Text → Text
strip_newline [] = []
strip_newline (c ∷ []) = if c == 10 then [] else c ∷ []
strip_newline (c ∷ d ∷ s) = c ∷ strip_newline (d ∷ s)

abbrev or_invalid : {A : Type 0} → Option A → Result A
or_invalid none = err value_error
or_invalid (some a) = ok a

-- S-(\d)-(\d+)(?:-\d+){1,15} with the numbers that it finds
pub record Sid : Type 0 where
  pub revision : ℕ
  pub authority : ℕ
  pub sub_authorities : List ℕ

module _ (digit : ℕ → Option ℕ) where
  -- The value of digits behind those of `acc`
  number_from : ℕ → Text → Result ℕ
  number_from acc [] = ok acc
  number_from acc (c ∷ s) = do n ← or_invalid (digit c); number_from (acc * 10 + n) s

  -- \d+
  number : Text → Result ℕ
  number [] = err value_error
  number (c ∷ s) = number_from 0 (c ∷ s)

  -- \d
  one_digit : Text → Result ℕ
  one_digit [] = err value_error
  one_digit (c ∷ []) = or_invalid (digit c)
  one_digit (c ∷ d ∷ s) = err value_error

  sid_numbers : List Text → Result Sid
  sid_numbers [] = err value_error
  sid_numbers (r ∷ []) = err value_error
  sid_numbers (r ∷ a ∷ []) = err value_error
  sid_numbers (r ∷ a ∷ s ∷ subs) = do
    revision ← one_digit r
    authority ← number a
    sub_authorities ← map_result number (s ∷ subs)
    (if leb (length sub_authorities) 15
        then ok (record {
          revision = revision;
          authority = authority;
          sub_authorities = sub_authorities;
        })
        else err value_error)

  is_s : Text → Bool
  is_s [] = false
  is_s (c ∷ []) = c == 83
  is_s (c ∷ d ∷ s) = false

  unfoldable pub parse_sid : Text → Result Sid
  unfolding number_from number one_digit sid_numbers is_s
  parse_sid sid =
      let (head, parts) = split_dash (strip_newline sid) in
      if is_s head then sid_numbers parts else err value_error

  unfoldable pub sid_to_bytes : Text → Result Bytes
  sid_to_bytes sid = do
    s ← parse_sid sid
    b_authority ← to_bytes_be 8 s.authority
    b_subs ← map_result (to_bytes 4) s.sub_authorities
    ok ((s.revision ∷ length s.sub_authorities ∷ drop 2 b_authority) ++ join b_subs)

  unfoldable pub ace_to_bytes : Text → ℕ → Result Bytes
  ace_to_bytes sid access_mask = do
    b_sid ← sid_to_bytes sid
    b_size ← to_bytes 2 (8 + length b_sid)
    b_mask ← to_bytes 4 access_mask
    ok (join ((0 ∷ 0 ∷ []) ∷ b_size ∷ b_mask ∷ b_sid ∷ []))

  unfoldable pub acl_to_bytes : List Bytes → Result Bytes
  acl_to_bytes aces = do
    b_size ← to_bytes 2 (8 + length (join aces))
    b_count ← to_bytes 2 (length aces)
    ok (join ((2 ∷ 0 ∷ []) ∷ b_size ∷ b_count ∷ (0 ∷ 0 ∷ []) ∷ join aces ∷ []))

  -- `if sacl:` of an optional list
  abbrev pub present : Option (List Bytes) → Bool
  present none = false
  present (some []) = false
  present (some (ace ∷ aces)) = true

  -- The bytes that a list adds: none where it is absent
  unfoldable pub acl_part : Option (List Bytes) → Result Bytes
  acl_part none = ok []
  acl_part (some []) = ok []
  acl_part (some (ace ∷ aces)) = acl_to_bytes (ace ∷ aces)

  unfoldable pub sd_to_bytes :
      Text → Text → Option (List Bytes) → Option (List Bytes) → Result Bytes
  sd_to_bytes owner group sacl dacl = do
    sacl_bytes ← acl_part sacl
    let sacl_offset = if present sacl then 20 else 0
    let after_sacl = 20 + length sacl_bytes
    dacl_bytes ← acl_part dacl
    let dacl_offset = if present dacl then after_sacl else 0
    owner_bytes ← sid_to_bytes owner
    let owner_offset = after_sacl + length dacl_bytes
    group_bytes ← sid_to_bytes group
    let group_offset = owner_offset + length owner_bytes
    let control = 0x8000 + (if present sacl then 0x10 else 0) + (if present dacl then 0x04 else 0)
    b_control ← to_bytes 2 control
    b_owner_offset ← to_bytes 4 owner_offset
    b_group_offset ← to_bytes 4 group_offset
    b_sacl_offset ← to_bytes 4 sacl_offset
    b_dacl_offset ← to_bytes 4 dacl_offset
    ok (
        join (
          (1 ∷ 0 ∷ [])
          ∷ b_control
          ∷ b_owner_offset
          ∷ b_group_offset
          ∷ b_sacl_offset
          ∷ b_dacl_offset
          ∷ sacl_bytes
          ∷ dacl_bytes
          ∷ owner_bytes
          ∷ group_bytes
          ∷ []))
