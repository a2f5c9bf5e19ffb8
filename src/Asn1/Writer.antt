-- ===== src/Asn1/Writer.antt =====
-- class ASN1Writer of src/dpapi_ng/_asn1.py. A writer has its octets, and one that push_sequence or
-- push_set returns has a tag and its parent besides. A `with` block is `within`: the block runs on
-- the pushed writer, and __exit__ gives the parent what was written.
pub mod Laws
use dpapi_ng.Base.{
  ℕ, Bool, true, Option, List, [], ◌∷◌, ◌++◌, Result, ok, err, ◌>>=◌, type_error, ℤ,
}
use dpapi_ng.Bytes.{Bytes}
use dpapi_ng.Bytes.Text.{Text}
use dpapi_ng.Asn1.Tag.{Asn1Tag, universal_tag, sequence, set}
use dpapi_ng.Asn1.Header.{pack_asn1}
use dpapi_ng.Asn1.Integer.{or_tag, pack_integer, pack_enumerated}
use dpapi_ng.Asn1.Oid.{pack_object_identifier}
use dpapi_ng.Asn1.Strings.{pack_boolean, pack_octet_string}

pub data Asn1Writer : Type 0 where
  root : Bytes → Asn1Writer
  child : Asn1Tag → Bytes → Asn1Writer → Asn1Writer

-- self._data.extend(octets)
unfoldable pub extend : Asn1Writer → Bytes → Asn1Writer
extend (root octets) more = root (octets ++ more)
extend (child tag octets parent) more = child tag (octets ++ more) parent

-- __exit__: a writer without a parent has nothing to do
unfoldable pub exit : Asn1Writer → Result Asn1Writer
exit (root octets) = ok (root octets)
exit (child tag octets parent) = do packed ← pack_asn1 tag octets; ok (extend parent packed)

unfoldable pub push_sequence : Option Asn1Tag → Asn1Writer → Asn1Writer
push_sequence tag writer = child (or_tag tag (universal_tag sequence true)) [] writer

unfoldable pub push_set : Option Asn1Tag → Asn1Writer → Asn1Writer
push_set tag writer = child (or_tag tag (universal_tag set true)) [] writer

-- with push(writer) as inner: block
abbrev pub within :
    (Asn1Writer → Asn1Writer) → (Asn1Writer → Result Asn1Writer) → Asn1Writer → Result Asn1Writer
within push block writer = do inner ← block (push writer); exit inner

-- self._data.extend(_pack_asn1_*(value, tag=tag))
abbrev pub write_packed : Result Bytes → Asn1Writer → Result Asn1Writer
write_packed packing writer = do packed ← packing; ok (extend writer packed)

module _ (tag : Option Asn1Tag) where
  unfoldable pub write_boolean : Bool → Asn1Writer → Result Asn1Writer
  write_boolean value writer = write_packed (pack_boolean value tag) writer

  unfoldable pub write_enumerated : ℤ → Asn1Writer → Result Asn1Writer
  write_enumerated value writer = write_packed (pack_enumerated value tag) writer

  unfoldable pub write_integer : ℤ → Asn1Writer → Result Asn1Writer
  write_integer value writer = write_packed (pack_integer value tag) writer

  unfoldable pub write_octet_string : Bytes → Asn1Writer → Result Asn1Writer
  write_octet_string value writer = write_packed (pack_octet_string value tag) writer

  unfoldable pub write_object_identifier : Text → Asn1Writer → Result Asn1Writer
  write_object_identifier value writer = write_packed (pack_object_identifier value tag) writer

unfoldable pub get_data : Asn1Writer → Result Bytes
get_data (root octets) = ok octets
get_data (child tag octets parent) = err type_error
