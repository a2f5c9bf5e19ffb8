-- ===== src/Tests/Structures.antt =====
-- The round trips of the structures at concrete inputs.
use dpapi_ng.Base.{
  ◌^◌, ◌≡◌, refl, arith, inl, inr, Bool, true, not, ◌&&◌, ltb, some, [], ◌∷◌, ◌==◌, if◌then◌else◌,
  All, ok, err, ◌>>=◌, value_error, pos, negsuc,
}
use dpapi_ng.Bytes.Text.{Text, text, IsChar, is_surrogate}
use dpapi_ng.Blob.KeyIdentifier.{KeyIdentifier}
use dpapi_ng.Blob.KeyIdentifier as Identifier
use dpapi_ng.Blob.KeyIdentifier.RoundTrip as IdentifierRoundTrip
use dpapi_ng.Gkdi.Envelope.{GroupKeyEnvelope}
use dpapi_ng.Gkdi.Envelope.Pack as Envelope
use dpapi_ng.Gkdi.Envelope.RoundTrip as EnvelopeRoundTrip
use dpapi_ng.Gkdi.KdfParameters as Kdf
use dpapi_ng.Gkdi.PublicKey.Ffcdh.{FfcdhParameters, FfcdhKey}
use dpapi_ng.Gkdi.PublicKey.Ecdh.{EcdhKey, pack_ecdh, unpack_ecdh, unpack-pack_ecdh}
use dpapi_ng.Gkdi.GetKey.{GetKey}
use dpapi_ng.Gkdi.GetKey as Request
use dpapi_ng.Gkdi.GetKey.RoundTrip.{unpack-pack_get_key}
use dpapi_ng.Gkdi.GetKey.Response.{response, unpack_response-response}
use dpapi_ng.Tests.Data.{root_id, root_id-IsUuid, envelope_at}

abbrev pub is_text : Text → Bool
is_text [] = true
is_text (c ∷ s) = (ltb c 0x110000 && not (is_surrogate c)) && is_text s

-- A text whose characters are all encodable, checked by evaluation.
pub chars : (s : Text) → is_text s ≡ true → All IsChar s
chars [] h = tt
chars (c ∷ s) h = (record { below = ground arith; plain = ground arith }, chars s (ground arith))

abbrev pub identifier : KeyIdentifier
identifier = record {
  version = 1;
  flags = 3;
  l0 = 361;
  l1 = 19;
  l2 = 3;
  root_key_identifier = root_id;
  key_info = 1 ∷ 2 ∷ 3 ∷ [];
  domain_name = text "d.io";
  forest_name = text "é𝄞";
}

pub identifier-IsValid : IdentifierRoundTrip.IsValid identifier
identifier-IsValid = record {
  version = omega arith;
  flags = omega arith;
  l0 = omega arith;
  l1 = omega arith;
  l2 = omega arith;
  root_key_identifier = root_id-IsUuid;
  key_info = omega arith;
  domain_name = chars identifier.domain_name refl;
  domain_len = omega arith;
  forest_name = chars identifier.forest_name refl;
  forest_len = omega arith;
}

unpack-pack_key_identifier_example :
    (Identifier.pack identifier >>= Identifier.unpack) ≡ ok identifier
unpack-pack_key_identifier_example =
    IdentifierRoundTrip.unpack-pack_key_identifier identifier identifier-IsValid

abbrev envelope : GroupKeyEnvelope
envelope = envelope_at 2 31 31 (1 ∷ 2 ∷ []) (3 ∷ [])

envelope-IsValid : EnvelopeRoundTrip.IsValid envelope
envelope-IsValid = record {
  version = omega arith;
  flags = omega arith;
  l0 = omega arith;
  l1 = omega arith;
  l2 = omega arith;
  root_key_identifier = root_id-IsUuid;
  kdf_algorithm = chars envelope.kdf_algorithm refl;
  kdf_algo_len = omega arith;
  kdf_para_len = omega arith;
  secret_algorithm = chars envelope.secret_algorithm refl;
  sec_algo_len = omega arith;
  sec_para_len = omega arith;
  private_key_length = omega arith;
  public_key_length = omega arith;
  domain_name = chars envelope.domain_name refl;
  domain_len = omega arith;
  forest_name = chars envelope.forest_name refl;
  forest_len = omega arith;
  l1_key_len = omega arith;
  l2_key_len = omega arith;
}

unpack-pack_envelope_example : (Envelope.pack envelope >>= Envelope.unpack) ≡ ok envelope
unpack-pack_envelope_example = EnvelopeRoundTrip.unpack-pack_envelope envelope envelope-IsValid

abbrev sha256_parameters : Kdf.KdfParameters
sha256_parameters = record { hash_name = text "SHA256" }

abbrev parameters : FfcdhParameters
parameters = record { key_length = 2; field_order = 0x1fff; generator = 5 }

abbrev dh_key : FfcdhKey
dh_key = record { key_length = 2; field_order = 0x1fff; generator = 5; public_key = 3125 }

abbrev ecdh_key : EcdhKey
ecdh_key = record { curve_name = text "P384"; key_length = 48; x = 77; y = 256 ^ 47 }

unpack-pack_ecdh_example : (pack_ecdh ecdh_key >>= unpack_ecdh) ≡ ok ecdh_key
unpack-pack_ecdh_example = unpack-pack_ecdh ecdh_key (record {
  curve_name = inr (inl refl);
  key_length = omega arith;
  x = omega arith;
  y = omega arith;
})

abbrev request : GetKey
request = record {
  target_sd = 1 ∷ 2 ∷ 3 ∷ [];
  root_key_id = some root_id;
  l0_key_id = pos 361;
  l1_key_id = negsuc 0;
  l2_key_id = negsuc 0;
}

unpack-pack_get_key_example : (Request.pack request >>= Request.unpack) ≡ ok request
unpack-pack_get_key_example = unpack-pack_get_key request (record {
  target_sd = omega arith;
  root_key_id = root_id-IsUuid;
  l0_key_id = omega arith;
  l1_key_id = omega arith;
  l2_key_id = omega arith;
})

unpack_response-response_example :
    Request.unpack_response (response (1 ∷ 2 ∷ 3 ∷ []) (0 ∷ []) 5)
    ≡ (if 5 == 0 then Envelope.unpack (1 ∷ 2 ∷ 3 ∷ []) else err value_error)
unpack_response-response_example =
    unpack_response-response (1 ∷ 2 ∷ 3 ∷ []) (0 ∷ []) 5 (omega arith) (omega arith)
