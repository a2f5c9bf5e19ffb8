-- ===== src/SecurityDescriptor/SidBytes.antt =====
-- sid_to_bytes of src/dpapi_ng/_security_descriptor.py against the structure of MS-DTYP.
use dpapi_ng.Base.{
  ℕ, ◌^◌, ◌<◌, ◌≡◌, refl, arith, Option, List, [], ◌∷◌, ◌++◌, reverse, map, length, slice, All,
  map_result, ok,
}
use dpapi_ng.Bytes.{Bytes, join, le_bytes, from_be, to_bytes}
use dpapi_ng.Bytes.RoundTrip.{to_bytes-ok, to_bytes_be-ok, from_be-be_bytes}
use dpapi_ng.Bytes.Text.{Text}
use dpapi_ng.SecurityDescriptor.{Sid, parse_sid, sid_to_bytes}

-- SID of MS-DTYP 2.4.2.2: the revision, the number of sub authorities, the authority in six bytes
-- with the highest one first, and the sub authorities in four bytes each with the lowest one first.
abbrev pub sid_layout : Sid → Bytes
sid_layout s =
    s.revision
    ∷ length s.sub_authorities
    ∷ (reverse (le_bytes 6 s.authority) ++ join (map (le_bytes 4) s.sub_authorities))

subs_lem :
    (subs : List ℕ)
    → All (λ n. n < 256 ^ 4) subs
    → map_result (to_bytes 4) subs ≡ ok (map (le_bytes 4) subs)
subs_lem [] h = refl
subs_lem (n ∷ subs) (hn, hs) = rw (to_bytes-ok 4 n hn, subs_lem subs hs)

module _ (digit : ℕ → Option ℕ) where
  -- For a SID string that parses, with an authority below 256 ^ 6 and sub authorities below 256
  -- ^ 4, sid_to_bytes returns the SID structure of MS-DTYP for its numbers, and the authority
  -- is read back from bytes 2 to 8 of it.
  pub sid_to_bytes-layout :
      (sid : Text) (s : Sid)
      → parse_sid digit sid ≡ ok s
      → s.authority < 256 ^ 6
      → All (λ n. n < 256 ^ 4) s.sub_authorities
      → (sid_to_bytes digit sid ≡ ok (sid_layout s))
        × (from_be (slice 2 8 (sid_layout s)) ≡ s.authority)
  unfolding sid_to_bytes
  sid_to_bytes-layout sid s e h hs = (
    rw (e, to_bytes_be-ok 8 s.authority (omega arith), subs_lem s.sub_authorities hs),
    from_be-be_bytes 6 s.authority h,
  )
