-- ===== src/Pkcs7/Enveloped.antt =====
-- EnvelopedData and its encrypted content, ContentInfo and the protection descriptor of
-- src/dpapi_ng/_pkcs7.py: the octets and what unpack makes of them.
use dpapi_ng.Base.{
  ℕ, zero, suc, ◌<◌, ◌≤◌, ◌≡◌, refl, arith, true, false, Option, none, some, [], ◌∷◌, ◌++◌,
  append-nil, length, ok, ◌>>=◌, pos, All,
}
use dpapi_ng.Bytes.{Bytes}
use dpapi_ng.Bytes.Text.{Text, IsChar}
use dpapi_ng.Bytes.Utf8.{utf8_bytes}
use dpapi_ng.Asn1.Tag.{universal_tag, set}
use dpapi_ng.Asn1.Header.LengthOctets.{FitsLength}
use dpapi_ng.Asn1.Header.RoundTrip.{header_of}
use dpapi_ng.Asn1.Validate.{tlv, Fits-content, Fits-left, Fits-right, tlv_pos}
use dpapi_ng.Asn1.Integer.RoundTrip.{integer_tlv}
use dpapi_ng.Asn1.Named as Named
use dpapi_ng.Asn1.Named.{Oid, oid_text, oid_bytes, reader-oid}
use dpapi_ng.Asn1.Reader as Reader
use dpapi_ng.Asn1.Reader.Laws.{
  read_octet_string-tlv, read_sequence-tlv, read_set-tlv, read_utf8_string-tlv, utf8_tag,
}
use dpapi_ng.Pkcs7.{
  KekRecipientInfo, EncryptedContentInfo, context_tag, unpack_recipient, unpack_recipients,
  unpack_content, unpack_encrypted_content, unpack_enveloped, unpack_content_info,
  unpack_descriptor,
}
use dpapi_ng.Pkcs7.Layout.{
  sequence_tag, sequence_tag-IsTag, set-IsTag, context_tag-IsTag, sequence_lem,
  unpack_algorithm_lem,
}
use dpapi_ng.Pkcs7.Recipient.{algorithm_octets, algorithm_of, version_lem, recipient_tag}

-- The encrypted content, where it stands inside.
abbrev pub content_field : Option Bytes → Bytes
content_field none = []
content_field (some content) = tlv (context_tag 0 false) content

unpack_content-read :
    (xs : Bytes)
    → 0 < length xs
    → unpack_content xs
      ≡ (Reader.read_octet_string (some (context_tag 0 false)) none xs >>= λ p. ok (some p.0))
unfolding unpack_content
unpack_content-read [] h = absurd (omega arith)
unpack_content-read (x ∷ xs) h = refl

unpack_content_lem :
    (inline : Option Bytes)
    → FitsLength (length (content_field inline))
    → unpack_content (content_field inline) ≡ ok inline
unpack_content_lem none fits = unfold unpack_content in refl
unpack_content_lem (some content) fits =
    let t = context_tag 0 false in
    let read : Reader.read_octet_string (some t) none (tlv t content) ≡ ok (content, []) =
      rw append-nil at (
        read_octet_string-tlv t content [] (context_tag-IsTag 0 false) (Fits-content t content fits)
          (some t) none tt refl) in
    rw (unpack_content-read (tlv t content) (tlv_pos t content (omega arith)), read)

module _ (content_type o : Oid) (parameters : Bytes) (inline : Option Bytes) where
  abbrev pub content_octets : Bytes
  content_octets = oid_bytes content_type ++ (algorithm_octets o parameters ++ content_field inline)

  abbrev pub content_of : EncryptedContentInfo
  content_of = record {
    content_type = oid_text content_type;
    algorithm = algorithm_of o parameters;
    content = inline;
  }

  pub unpack_encrypted_content_lem :
      (rest : Bytes)
      → Named.IsValid content_type
      → Named.IsValid o
      → FitsLength (length content_octets)
      → unpack_encrypted_content (tlv sequence_tag content_octets ++ rest) ≡ ok content_of
  unfolding unpack_encrypted_content
  unpack_encrypted_content_lem rest type_ok o_ok fits =
      let inner = algorithm_octets o parameters ++ content_field inline in
      let fits' = Fits-right (oid_bytes content_type) inner fits in
      rw (
        sequence_lem content_octets rest fits,
        reader-oid content_type inner type_ok (Fits-left (oid_bytes content_type) inner fits),
        unpack_algorithm_lem o o_ok parameters (content_field inline) (
            Fits-content sequence_tag (oid_bytes o ++ parameters)
              (Fits-left (algorithm_octets o parameters) (content_field inline) fits')),
        unpack_content_lem inline
            (Fits-right (algorithm_octets o parameters) (content_field inline) fits'),
      )

unpack_recipients-step :
    (fuel : ℕ) (xs : Bytes)
    → 0 < length xs
    → unpack_recipients (suc fuel) xs
      ≡ (unpack_recipient xs >>= λ p. (unpack_recipients fuel p.1 >>= λ infos. ok (p.0 ∷ infos)))
unfolding unpack_recipients
unpack_recipients-step fuel [] h = absurd (omega arith)
unpack_recipients-step fuel (x ∷ xs) h = refl

unpack_recipients-nil : (fuel : ℕ) → unpack_recipients fuel [] ≡ ok []
unfolding unpack_recipients
unpack_recipients-nil zero = refl
unpack_recipients-nil (suc fuel) = refl

-- One recipient, with enough rounds.
unpack_recipients-one :
    (fuel : ℕ) (xs : Bytes) (info : KekRecipientInfo)
    → 0 < length xs
    → length xs ≤ fuel
    → unpack_recipient xs ≡ ok (info, [])
    → unpack_recipients fuel xs ≡ ok (info ∷ [])
unpack_recipients-one zero xs info h le e = absurd (omega arith)
unpack_recipients-one (suc fuel) xs info h le e =
    rw (unpack_recipients-step fuel xs h, e, unpack_recipients-nil fuel)

-- EnvelopedData with one recipient.
abbrev pub enveloped_octets : Bytes → Bytes → Bytes
enveloped_octets recipient content =
    integer_tlv 2
    ++ (tlv (universal_tag set true) (tlv recipient_tag recipient) ++ tlv sequence_tag content)

pub unpack_enveloped_lem :
    (recipient content rest : Bytes) (info : KekRecipientInfo) (content_info : EncryptedContentInfo)
    → FitsLength (length (enveloped_octets recipient content))
    → unpack_recipient (tlv recipient_tag recipient) ≡ ok (info, [])
    → unpack_encrypted_content (tlv sequence_tag content) ≡ ok content_info
    → unpack_enveloped (tlv sequence_tag (enveloped_octets recipient content) ++ rest)
      ≡ ok (record {
        version = pos 2;
        recipient_infos = info ∷ [];
        encrypted_content_info = content_info;
      })
unfolding unpack_enveloped
unpack_enveloped_lem recipient content rest info content_info fits e f =
    let t = universal_tag set true in
    let one = tlv recipient_tag recipient in
    let inner = tlv t one ++ tlv sequence_tag content in
    let fits' = Fits-right (integer_tlv 2) inner fits in
    rw (
      sequence_lem (enveloped_octets recipient content) rest fits,
      version_lem 2 inner (omega arith),
      read_set-tlv t one (tlv sequence_tag content) set-IsTag
          (Fits-content t one (Fits-left (tlv t one) (tlv sequence_tag content) fits')) none none tt
          refl,
      unpack_recipients-one (length one) one info (tlv_pos recipient_tag recipient (omega arith))
          (omega arith) e,
      f,
    )

-- ContentInfo with a known header.
abbrev pub content_info_octets : Oid → Bytes → Bytes
content_info_octets o content = oid_bytes o ++ tlv (context_tag 0 true) content

pub unpack_content_info_lem :
    (o : Oid) (content : Bytes)
    → Named.IsValid o
    → FitsLength (length (content_info_octets o content))
    → unpack_content_info
        (tlv sequence_tag (content_info_octets o content))
        (some (header_of sequence_tag (length (content_info_octets o content))))
      ≡ ok (record { content_type = oid_text o; content = content })
unfolding unpack_content_info
unpack_content_info_lem o content h fits =
    let t = context_tag 0 true in
    let octets = content_info_octets o content in
    let fits_t = Fits-right (oid_bytes o) (tlv t content) fits in
    let outer : Reader.read_sequence none (some (header_of sequence_tag (length octets)))
          (tlv sequence_tag octets)
        ≡ ok (octets, []) =
      rw append-nil at (
        read_sequence-tlv sequence_tag octets [] sequence_tag-IsTag fits none
          (some (header_of sequence_tag (length octets))) refl refl) in
    let inner : Reader.read_octet_string (some t) none (tlv t content) ≡ ok (content, []) =
      rw append-nil at (
        read_octet_string-tlv t content [] (context_tag-IsTag 0 true)
          (Fits-content t content fits_t) (some t) none tt refl) in
    rw (outer, reader-oid o (tlv t content) h (Fits-left (oid_bytes o) (tlv t content) fits), inner)

-- The protection descriptor: a type and a value inside three sequences.
abbrev pub pair_octets : Text → Text → Bytes
pair_octets type value = tlv utf8_tag (utf8_bytes type) ++ tlv utf8_tag (utf8_bytes value)

abbrev pub nested_octets : Text → Text → Bytes
nested_octets type value =
    tlv sequence_tag (tlv sequence_tag (tlv sequence_tag (pair_octets type value)))

abbrev pub descriptor_octets : Oid → Text → Text → Bytes
descriptor_octets o type value = oid_bytes o ++ nested_octets type value

sequence_end :
    (content : Bytes)
    → FitsLength (length content)
    → Reader.read_sequence none none (tlv sequence_tag content) ≡ ok (content, [])
sequence_end content fits = rw append-nil at (sequence_lem content [] fits)

pub unpack_descriptor_lem :
    (o : Oid) (type value : Text)
    → Named.IsValid o
    → All IsChar type
    → All IsChar value
    → FitsLength (length (descriptor_octets o type value))
    → unpack_descriptor (tlv sequence_tag (descriptor_octets o type value))
      ≡ ok (record { content_type = oid_text o; type = type; value = value })
unfolding unpack_descriptor
unpack_descriptor_lem o type value h type_ok value_ok fits =
    let p = pair_octets type value in
    let s1 = tlv sequence_tag p in
    let s2 = tlv sequence_tag s1 in
    let last = tlv utf8_tag (utf8_bytes value) in
    let fits3 =
      Fits-content sequence_tag s2 (Fits-right (oid_bytes o) (nested_octets type value) fits) in
    let fits2 = Fits-content sequence_tag s1 fits3 in
    let fits1 = Fits-content sequence_tag p fits2 in
    let value_end : Reader.read_utf8_string none none last ≡ ok (value, []) = rw append-nil at (
      read_utf8_string-tlv value [] value_ok (
        Fits-content utf8_tag (utf8_bytes value)
          (Fits-right (tlv utf8_tag (utf8_bytes type)) last fits1))) in
    rw (
      sequence_end (descriptor_octets o type value) fits,
      reader-oid o (nested_octets type value) h
          (Fits-left (oid_bytes o) (nested_octets type value) fits),
      sequence_end s2 fits3,
      sequence_end s1 fits2,
      sequence_end p fits1,
      read_utf8_string-tlv type last type_ok (
          Fits-content utf8_tag (utf8_bytes type)
            (Fits-left (tlv utf8_tag (utf8_bytes type)) last fits1)),
      value_end,
    )
