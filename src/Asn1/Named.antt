-- ===== src/Asn1/Named.antt =====
-- Object identifiers by their numbers, as src/dpapi_ng/_asn1.py writes and reads them.
use dpapi_ng.Base.{ℕ, ◌≡◌, List, ◌∷◌, ◌++◌, length, none, ok}
use dpapi_ng.Bytes.{Bytes}
use dpapi_ng.Bytes.Text.{Text}
use dpapi_ng.Asn1.Header.LengthOctets.{FitsLength}
use dpapi_ng.Asn1.Validate.{Fits-content}
use dpapi_ng.Asn1.Oid.{dotted}
use dpapi_ng.Asn1.Oid.RoundTrip.{IsOid, oid_octets, oid_tlv}
use dpapi_ng.Asn1.Reader as Reader
use dpapi_ng.Asn1.Reader.Laws.{reader-object_identifier}
use dpapi_ng.Asn1.Writer.{write_object_identifier}
use dpapi_ng.Asn1.Writer.Laws.{Writes, Writes-object_identifier}

pub record Oid : Type 0 where
  pub first : ℕ
  pub second : ℕ
  pub others : List ℕ

abbrev pub IsValid : Oid → Type 0
IsValid o = IsOid o.first o.second

unfoldable pub oid_text : Oid → Text
oid_text o = dotted (o.first ∷ o.second ∷ o.others)

unfoldable pub oid_bytes : Oid → Bytes
oid_bytes o = oid_tlv o.first o.second o.others

pub Writes-oid :
    (o : Oid) → IsValid o → Writes (write_object_identifier none (oid_text o)) (oid_bytes o)
unfolding oid_text oid_bytes
Writes-oid o h = Writes-object_identifier o.first o.second o.others h

pub reader-oid :
    (o : Oid) (rest : Bytes)
    → IsValid o
    → FitsLength (length (oid_bytes o))
    → Reader.read_object_identifier none none (oid_bytes o ++ rest) ≡ ok (oid_text o, rest)
unfolding oid_text oid_bytes oid_tlv
reader-oid o rest h fits =
    reader-object_identifier o.first o.second o.others rest h
      (Fits-content _ (oid_octets o.first o.second o.others) fits)
