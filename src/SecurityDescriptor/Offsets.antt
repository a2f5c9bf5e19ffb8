-- ===== src/SecurityDescriptor/Offsets.antt =====
-- The offsets of sd_to_bytes of src/dpapi_ng/_security_descriptor.py.
use dpapi_ng.Base.{
  ℕ, ◌+◌, ◌^◌, ◌<◌, ◌≡◌, refl, ap, ◌∙◌, arith, Bool, true, false, Option, List, ◌∷◌, ◌++◌,
  append-nil, length, slice, drop, drop-add, drop-append, if◌then◌else◌, ok,
}
use dpapi_ng.Bytes.{Bytes, le_bytes, from_le}
use dpapi_ng.Bytes.RoundTrip.{from_le-le_bytes, to_bytes-ok}
use dpapi_ng.Bytes.Text.{Text}
use dpapi_ng.SecurityDescriptor.{sid_to_bytes, acl_part, present, sd_to_bytes}

module _ (digit : ℕ → Option ℕ) where
  abbrev layout : ℕ → ℕ → ℕ → ℕ → ℕ → Bytes → Bytes
  layout control owner group sacl dacl rest =
      1
      ∷ 0
      ∷ (le_bytes 2 control
          ++ (le_bytes 4 owner
              ++ (le_bytes 4 group ++ (le_bytes 4 sacl ++ (le_bytes 4 dacl ++ rest)))))

  below20 : (b : Bool) (n : ℕ) → n < 256 ^ 4 → (if b then n else 0) < 256 ^ 4
  below20 true n h = h
  below20 false n h = omega arith

  control_small :
      (a b : Bool) → 0x8000 + (if a then 0x10 else 0) + (if b then 0x04 else 0) < 256 ^ 2
  control_small true true = omega arith
  control_small true false = omega arith
  control_small false true = omega arith
  control_small false false = omega arith

  drop_parts :
      (control owner group sacl dacl : ℕ) (s d rest : Bytes)
      → drop (20 + length s + length d) (layout control owner group sacl dacl (s ++ (d ++ rest)))
        ≡ rest
  drop_parts control owner group sacl dacl s d rest =
      let view = layout control owner group sacl dacl (s ++ (d ++ rest)) in
      let step : drop (20 + length s) view ≡ d ++ rest =
        drop-add 20 (length s) view ∙ drop-append s (d ++ rest) in
      rw (drop-add (20 + length s) (length d), step) (drop-append d rest)

  -- For SIDs and access control lists that are written without an error, and a descriptor whose
  -- offsets fit 32 bits: sd_to_bytes succeeds; from its owner offset the result is the owner
  -- and the group, from its group offset the group; the SACL offset is 20, or 0 without a SACL;
  -- the DACL offset is behind the SACL, or 0 without a DACL; and from byte 20 the result is the
  -- SACL, the DACL, the owner and the group.
  pub sd_to_bytes_offsets :
      (owner group : Text) (sacl dacl : Option (List Bytes)) (s d o g : Bytes)
      → acl_part digit sacl ≡ ok s
      → acl_part digit dacl ≡ ok d
      → sid_to_bytes digit owner ≡ ok o
      → sid_to_bytes digit group ≡ ok g
      → 20 + length s + length d + length o < 256 ^ 4
      → (sd : Bytes) × (sd_to_bytes digit owner group sacl dacl ≡ ok sd)
        × (drop (from_le (slice 4 8 sd)) sd ≡ o ++ g)
        × (drop (from_le (slice 8 12 sd)) sd ≡ g)
        × (from_le (slice 12 16 sd) ≡ (if present digit sacl then 20 else 0))
        × (from_le (slice 16 20 sd) ≡ (if present digit dacl then 20 + length s else 0))
        × (drop 20 sd ≡ s ++ (d ++ (o ++ g)))
  unfolding sd_to_bytes
  sd_to_bytes_offsets owner group sacl dacl s d o g es ed eo eg h =
      let ps = present digit sacl in
      let pd = present digit dacl in
      let control = 0x8000 + (if ps then 0x10 else 0) + (if pd then 0x04 else 0) in
      let oo = 20 + length s + length d in
      let go = oo + length o in
      let so : ℕ = if ps then 20 else 0 in
      let do' : ℕ = if pd then 20 + length s else 0 in
      let rest = s ++ (d ++ (o ++ g)) in
      let sd : Bytes = layout control oo go so do' rest in
      let hoo : oo < 256 ^ 4 = omega arith in
      let hso : so < 256 ^ 4 = below20 ps 20 (omega arith) in
      let hdo : do' < 256 ^ 4 = below20 pd (20 + length s) (omega arith) in
      (
        sd,
        rw (
          es,
          ed,
          eo,
          eg,
          to_bytes-ok 2 control (control_small ps pd),
          to_bytes-ok 4 oo hoo,
          to_bytes-ok 4 go h,
          to_bytes-ok 4 so hso,
          to_bytes-ok 4 do' hdo,
          append-nil,
        ),
        rw (from_le-le_bytes 4 oo hoo) (drop_parts control oo go so do' s d (o ++ g)),
        rw (from_le-le_bytes 4 go h, drop-add oo (length o))
            (ap (drop (length o)) (drop_parts control oo go so do' s d (o ++ g)) ∙ drop-append o g),
        from_le-le_bytes 4 so hso,
        from_le-le_bytes 4 do' hdo,
        refl,
      )
