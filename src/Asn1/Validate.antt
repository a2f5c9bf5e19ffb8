-- ===== src/Asn1/Validate.antt =====
-- _validate_tag of src/dpapi_ng/_asn1.py, and what it makes of a packed value.
use dpapi_ng.Base.{
  ℕ, ◌+◌, ◌<◌, ◌≤◌, ◌≡◌, arith, not, ltb, ge→ltb, Option, none, some, ◌++◌, append_assoc, length,
  length-append, take, drop, take-append, drop-append, if◌then◌else◌, Result, ok, err, ◌>>=◌,
  value_error, not_enough_data,
}
use dpapi_ng.Bytes.{Bytes}
use dpapi_ng.Asn1.Tag.{Asn1Tag, Asn1Header, tag_eq, tag_eq_refl, IsLowTag}
use dpapi_ng.Asn1.Header.{read_header, pack_asn1}
use dpapi_ng.Asn1.Header.LengthOctets.{FitsLength}
use dpapi_ng.Asn1.Header.RoundTrip.{
  IsTag, pack_asn1-ok, header_bytes, header_of, read_header-header_bytes, length-header_bytes,
  header_bytes_pos,
}

-- The header that is given, or the one that is read
abbrev header_or_read : Bytes → Option Asn1Header → Result Asn1Header
header_or_read view (some header) = ok header
header_or_read view none = read_header view

abbrev pub wanted_tag : Option Asn1Tag → Asn1Tag → Option Asn1Header → Asn1Tag
wanted_tag (some expected_tag) type_tag header = expected_tag
wanted_tag none type_tag (some header) = header.tag
wanted_tag none type_tag none = type_tag

-- The content and the number of octets of the whole value
unfoldable pub validate_tag :
    Bytes → Option Asn1Tag → Asn1Tag → Option Asn1Header → Result (Bytes × ℕ)
validate_tag view expected_tag type_tag header = do
  actual ← header_or_read view header
  (if not (tag_eq actual.tag (wanted_tag expected_tag type_tag header))
      then err value_error
      else let content = drop actual.tag_length view in
        if ltb (length content) actual.length
        then err not_enough_data
        else ok (take actual.length content, actual.tag_length + actual.length))

-- A packed value: the header octets and the content.
unfoldable pub tlv : Asn1Tag → Bytes → Bytes
tlv t content = header_bytes t (length content) ++ content

pub pack_asn1-tlv :
    (t : Asn1Tag) (content : Bytes) → t.tag_class < 4 → pack_asn1 t content ≡ ok (tlv t content)
unfolding tlv
pack_asn1-tlv t content h = pack_asn1-ok t content h

pub length-tlv :
    (t : Asn1Tag) (content : Bytes)
    → IsLowTag t
    → FitsLength (length content)
    → length (tlv t content) ≤ length content + 10
unfolding tlv
length-tlv t content h fits = omega (
  arith,
  length-append (header_bytes t (length content)) content,
  length-header_bytes t (length content) h fits,
)

pub tlv_pos : (t : Asn1Tag) (content : Bytes) → t.tag_class < 4 → 0 < length (tlv t content)
unfolding tlv
tlv_pos t content h = omega (
  arith,
  header_bytes_pos t (length content) h,
  length-append (header_bytes t (length content)) content,
)

-- The slices at the end of a packed value.
pub length-tlv_parts :
    (t : Asn1Tag) (content : Bytes)
    → length (header_bytes t (length content)) + length content ≡ length (tlv t content)
unfolding tlv
length-tlv_parts t content = omega (arith, length-append (header_bytes t (length content)) content)

-- What fits a length has parts that fit one.
pub Fits-content :
    (t : Asn1Tag) (content : Bytes)
    → FitsLength (length (tlv t content))
    → FitsLength (length content)
unfolding tlv
Fits-content t content fits = omega (arith, length-append (header_bytes t (length content)) content)

pub Fits-left : (xs ys : Bytes) → FitsLength (length (xs ++ ys)) → FitsLength (length xs)
Fits-left xs ys fits = omega (arith, length-append xs ys)

pub Fits-right : (xs ys : Bytes) → FitsLength (length (xs ++ ys)) → FitsLength (length ys)
Fits-right xs ys fits = omega (arith, length-append xs ys)

-- A header that is known already or is still to be read.
abbrev pub IsHeader : Asn1Tag → ℕ → Option Asn1Header → Type 0
IsHeader t n none = Unit {0}
IsHeader t n (some header) = header ≡ header_of t n

pub read_header-tlv :
    (t : Asn1Tag) (content rest : Bytes)
    → IsTag t
    → FitsLength (length content)
    → read_header (tlv t content ++ rest) ≡ ok (header_of t (length content))
unfolding tlv
read_header-tlv t content rest h fits =
    rw (append_assoc (header_bytes t (length content)) content rest)
      (read_header-header_bytes t (length content) (content ++ rest) h fits)

header_or_read-tlv :
    (t : Asn1Tag) (content rest : Bytes) (header : Option Asn1Header)
    → IsTag t
    → FitsLength (length content)
    → IsHeader t (length content) header
    → header_or_read (tlv t content ++ rest) header ≡ ok (header_of t (length content))
header_or_read-tlv t content rest none h fits given = read_header-tlv t content rest h fits
header_or_read-tlv t content rest (some header) h fits given = rw given

-- The content of a packed value is found, and its whole length is reported.
pub validate_tag-tlv :
    (t : Asn1Tag) (content rest : Bytes) (expected : Option Asn1Tag) (type_tag : Asn1Tag)
    (header : Option Asn1Header)
    → IsTag t
    → FitsLength (length content)
    → IsHeader t (length content) header
    → wanted_tag expected type_tag header ≡ t
    → validate_tag (tlv t content ++ rest) expected type_tag header
      ≡ ok (content, length (tlv t content))
unfolding validate_tag
validate_tag-tlv t content rest expected type_tag header h fits given wanted = rw (
  header_or_read-tlv t content rest header h fits given,
  wanted,
  tag_eq_refl t,
  drop-header,
  ge→ltb (length (content ++ rest)) (length content) (omega (arith, length-append content rest)),
  take-append content rest,
  length-tlv_parts t content,
)
  where
    drop-header :
        drop (length (header_bytes t (length content))) (tlv t content ++ rest) ≡ content ++ rest
    drop-header =
        unfold tlv in
        rw (
          append_assoc (header_bytes t (length content)) content rest,
          drop-append (header_bytes t (length content)) (content ++ rest),
        )
