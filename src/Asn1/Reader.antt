-- ===== src/Asn1/Reader.antt =====
-- class ASN1Reader of src/dpapi_ng/_asn1.py. Its state is the view, the bytes still to be read: a
-- method takes the view and returns a value with the new view. A reader that read_set or
-- read_sequence returns is a view of its own.
pub mod Laws
use dpapi_ng.Base.{ℕ, ◌+◌, Bool, true, false, Option, List, [], ◌∷◌, drop, Result, ok, ◌>>=◌, ℤ}
use dpapi_ng.Bytes.{Bytes}
use dpapi_ng.Bytes.Text.{Text}
use dpapi_ng.Asn1.Tag.{Asn1Tag, Asn1Header}
use dpapi_ng.Asn1.Header.{read_header}
use dpapi_ng.Asn1.Integer as Integer
use dpapi_ng.Asn1.Oid as Oid
use dpapi_ng.Asn1.Strings as Strings

-- The value of a read, and self._view[consumed:]
abbrev pub advance {ℓ} : {A : Type ℓ} → (Bytes → Result (A × ℕ)) → Bytes → Result (A × Bytes)
advance read view = do (val, consumed) ← read view; ok (val, drop consumed view)

-- __bool__
abbrev pub has_data : Bytes → Bool
has_data [] = false
has_data (b ∷ view) = true

unfoldable pub peek_header : Bytes → Result Asn1Header
peek_header view = read_header view

unfoldable pub skip_value : Asn1Header → Bytes → Bytes
skip_value header view = drop (header.tag_length + header.length) view

-- The bytes that are left, and a view without any
unfoldable pub get_remaining_data : Bytes → Bytes × Bytes
get_remaining_data view = (view, [])

module _ (tag : Option Asn1Tag) (header : Option Asn1Header) where
  unfoldable pub read_boolean : Bytes → Result (Bool × Bytes)
  read_boolean view = advance (λ v. Strings.read_boolean v tag header) view

  -- enum_type(val)
  unfoldable pub read_enumerated {ℓ} : {E : Type ℓ} → (ℤ → Result E) → Bytes → Result (E × Bytes)
  read_enumerated enum_type view = do
    (val, view') ← advance (λ v. Integer.read_enumerated v tag header) view
    member ← enum_type val
    ok (member, view')

  unfoldable pub read_generalized_time : Bytes → Result (Text × Bytes)
  read_generalized_time view = advance (λ v. Strings.read_generalized_time v tag header) view

  unfoldable pub read_integer : Bytes → Result (ℤ × Bytes)
  read_integer view = advance (λ v. Integer.read_integer v tag header) view

  unfoldable pub read_object_identifier : Bytes → Result (Text × Bytes)
  read_object_identifier view = advance (λ v. Oid.read_object_identifier v tag header) view

  unfoldable pub read_octet_string : Bytes → Result (Bytes × Bytes)
  read_octet_string view = advance (λ v. Strings.read_octet_string v tag header) view

  unfoldable pub read_set : Bytes → Result (Bytes × Bytes)
  read_set view = advance (λ v. Strings.read_set v tag header) view

  unfoldable pub read_sequence : Bytes → Result (Bytes × Bytes)
  read_sequence view = advance (λ v. Strings.read_sequence v tag header) view

  unfoldable pub read_utf8_string : Bytes → Result (Text × Bytes)
  read_utf8_string view = advance (λ v. Strings.read_utf8_string v tag header) view
