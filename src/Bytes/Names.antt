-- ===== src/Bytes/Names.antt =====
-- Names that a structure stores as UTF-16 text with a null unit behind, as several structures do.
use dpapi_ng.Base.{
  ◌+◌, ◌-◌, ◌≡◌, refl, ap, ◌∙◌, sym, arith, [], ◌∷◌, ◌++◌, append_assoc, length, length-append,
  take, take_less, take-append, All, ok, leb, true,
}
use dpapi_ng.Bytes.{Bytes}
use dpapi_ng.Bytes.Text.{
  Text, char_bytes, encode_utf16, decode_utf16, IsChar, utf16_bytes, encode_utf16-ok,
  decode_utf16-utf16_bytes,
}

-- The stored form of a name: `(name + "\0").encode("utf-16-le")`.
abbrev pub name_bytes : Text → Bytes
name_bytes s = utf16_bytes s ++ (0 ∷ 0 ∷ [])

utf16_bytes-null : (s : Text) → utf16_bytes (s ++ (0 ∷ [])) ≡ name_bytes s
utf16_bytes-null [] = refl
utf16_bytes-null (c ∷ s) =
    ap (λ (t : Bytes). char_bytes c ++ t) (utf16_bytes-null s)
    ∙ sym (append_assoc (char_bytes c) (utf16_bytes s) (0 ∷ 0 ∷ []))

All-append_null : (s : Text) → All IsChar s → All IsChar (s ++ (0 ∷ []))
All-append_null [] h = (record { below = omega arith; plain = refl }, tt)
All-append_null (c ∷ s) (hc, hs) = (hc, All-append_null s hs)

pub encode-name : (s : Text) → All IsChar s → encode_utf16 (s ++ (0 ∷ [])) ≡ ok (name_bytes s)
encode-name s h = encode_utf16-ok (s ++ (0 ∷ [])) (All-append_null s h) ∙ ap ok (utf16_bytes-null s)

pub length-name_bytes : (s : Text) → length (name_bytes s) ≡ length (utf16_bytes s) + 2
length-name_bytes s = length-append (utf16_bytes s) (0 ∷ 0 ∷ [])

pub name_long : (s : Text) → leb 2 (length (name_bytes s)) ≡ true
name_long s = rw (length-name_bytes s) (ground arith)

pub take-name :
    (s : Text) (rest : Bytes)
    → take (length (name_bytes s) - 2) (name_bytes s ++ rest) ≡ utf16_bytes s
take-name s rest =
    let e : length (utf16_bytes s) + 2 - 2 ≡ length (utf16_bytes s) = omega arith in
    rw (length-name_bytes s, e, append_assoc (utf16_bytes s) (0 ∷ 0 ∷ []) rest)
      (take-append (utf16_bytes s) (0 ∷ 0 ∷ rest))

-- The name is read back from its stored form, whatever follows.
pub decode-name :
    (s : Text) (rest : Bytes)
    → All IsChar s
    → decode_utf16 (take_less (length (name_bytes s)) 2 (name_bytes s ++ rest)) ≡ ok s
decode-name s rest h = rw (name_long s, take-name s rest) (decode_utf16-utf16_bytes s h)
