-- ===== src/Asn1/Writer/Laws.antt =====
-- ASN1Writer of src/dpapi_ng/_asn1.py: what a block of writes adds to its writer.
use dpapi_ng.Base.{
  ℕ, ◌<◌, ◌≡◌, refl, ap, arith, true, false, Option, none, List, [], ◌∷◌, ◌++◌, append_assoc,
  append-nil, sym, Result, ok, ◌>>=◌, pos,
}
use dpapi_ng.Bytes.{Bytes}
use dpapi_ng.Asn1.Tag.{Asn1Tag, universal_tag, octet_string, sequence, set}
use dpapi_ng.Asn1.Validate.{tlv, pack_asn1-tlv}
use dpapi_ng.Asn1.Integer.{or_tag}
use dpapi_ng.Asn1.Integer.RoundTrip.{integer_tlv, pack_integer-tlv}
use dpapi_ng.Asn1.Oid.{dotted}
use dpapi_ng.Asn1.Oid.RoundTrip.{IsOid, oid_tlv, pack_object_identifier-tlv}
use dpapi_ng.Asn1.Strings.{pack_octet_string}
use dpapi_ng.Asn1.Writer.{
  Asn1Writer, root, child, extend, exit, push_sequence, push_set, within, write_integer,
  write_octet_string, write_object_identifier,
}

-- A block that succeeds on every writer and adds these octets.
abbrev pub Writes : (Asn1Writer → Result Asn1Writer) → Bytes → Type 0
Writes block octets = (writer : Asn1Writer) → block writer ≡ ok (extend writer octets)

extend-extend :
    (writer : Asn1Writer) (a b : Bytes) → extend (extend writer a) b ≡ extend writer (a ++ b)
unfolding extend
extend-extend (root octets) a b = ap root (append_assoc octets a b)
extend-extend (child tag octets parent) a b =
    ap (λ (t : Bytes). child tag t parent) (append_assoc octets a b)

-- One block behind another.
pub Writes-then :
    (f g : Asn1Writer → Result Asn1Writer) (a b : Bytes)
    → Writes f a
    → Writes g b
    → Writes (λ writer. f writer >>= g) (a ++ b)
Writes-then f g a b p q = λ writer. rw (p writer, q (extend writer a), extend-extend writer a b)

pub Writes-octets : (octets : Bytes) → Writes (λ writer. ok (extend writer octets)) octets
Writes-octets octets = λ writer. refl

pub Writes-nothing : Writes (λ writer. ok writer) []
unfolding extend
Writes-nothing (root octets) = ap (λ (t : Bytes). ok (root t)) (sym (append-nil octets))
Writes-nothing (child tag octets parent) =
    ap (λ (t : Bytes). ok (child tag t parent)) (sym (append-nil octets))

exit-child :
    (t : Asn1Tag) (octets : Bytes) (parent : Asn1Writer)
    → t.tag_class < 4
    → exit (extend (child t [] parent) octets) ≡ ok (extend parent (tlv t octets))
unfolding exit extend
exit-child t octets parent h = rw (pack_asn1-tlv t octets h)

pub Writes-sequence :
    (tag : Option Asn1Tag) (block : Asn1Writer → Result Asn1Writer) (octets : Bytes)
    → (or_tag tag (universal_tag sequence true)).tag_class < 4
    → Writes block octets
    → Writes
        (within (push_sequence tag) block)
        (tlv (or_tag tag (universal_tag sequence true)) octets)
unfolding push_sequence
Writes-sequence tag block octets h p =
    let t = or_tag tag (universal_tag sequence true) in
    λ writer. rw (p (child t [] writer)) (exit-child t octets writer h)

pub Writes-set :
    (block : Asn1Writer → Result Asn1Writer) (octets : Bytes)
    → Writes block octets
    → Writes (within (push_set none) block) (tlv (universal_tag set true) octets)
unfolding push_set
Writes-set block octets p =
    let t = universal_tag set true in
    λ writer. rw (p (child t [] writer)) (exit-child t octets writer (omega arith))

pub Writes-integer : (n : ℕ) → Writes (write_integer none (pos n)) (integer_tlv n)
unfolding write_integer
Writes-integer n = λ writer. rw (pack_integer-tlv n)

pub Writes-octet_string :
    (tag : Option Asn1Tag) (value : Bytes)
    → (or_tag tag (universal_tag octet_string false)).tag_class < 4
    → Writes
        (write_octet_string tag value)
        (tlv (or_tag tag (universal_tag octet_string false)) value)
unfolding write_octet_string pack_octet_string
Writes-octet_string tag value h =
    λ writer. rw (pack_asn1-tlv (or_tag tag (universal_tag octet_string false)) value h)

pub Writes-object_identifier :
    (a b : ℕ) (arcs : List ℕ)
    → IsOid a b
    → Writes (write_object_identifier none (dotted (a ∷ b ∷ arcs))) (oid_tlv a b arcs)
unfolding write_object_identifier
Writes-object_identifier a b arcs h = λ writer. rw (pack_object_identifier-tlv a b arcs h)
