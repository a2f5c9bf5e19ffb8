-- ===== src/Client/Secret/Recover.antt =====
-- _encrypt_blob of src/dpapi_ng/_client.py, DPAPINGBlob.unpack and _decrypt_blob.
use dpapi_ng.Base.{
  ℕ, ◌+◌, ◌^◌, ◌<◌, ◌≤◌, ◌≡◌, refl, arith, true, Option, none, some, [], ◌∷◌, ◌++◌, length,
  length-append, All, ok, ◌>>=◌, >>=-eq-ok,
}
use dpapi_ng.Bytes.{Bytes}
use dpapi_ng.Bytes.Text.{Text, IsChar}
use dpapi_ng.Bytes.Utf8.{utf8_bytes}
use dpapi_ng.Asn1.Header.LengthOctets.{FitsLength, length_bytes, octet_count}
use dpapi_ng.Asn1.Header.RoundTrip.{header_bytes, identifier_bytes}
use dpapi_ng.Asn1.Header.{pack_identifier}
use dpapi_ng.Asn1.Validate.{tlv, length-tlv, tlv_pos}
use dpapi_ng.Asn1.Integer.RoundTrip.{integer_tlv, octets_of, more_octets}
use dpapi_ng.Asn1.Oid.{decimal_from, decimal, dotted}
use dpapi_ng.Asn1.Oid.RoundTrip.{oid_tlv}
use dpapi_ng.Asn1.OctetNumber.RoundTrip.{arc_bytes, high_octets}
use dpapi_ng.Asn1.Named.{Oid, oid_text, oid_bytes}
use dpapi_ng.Asn1.Writer.{root, extend, get_data}
use dpapi_ng.Asn1.Writer.Laws.{Writes-then, Writes-sequence, Writes-integer, Writes-octet_string}
use dpapi_ng.Blob.KeyIdentifier.{KeyIdentifier}
use dpapi_ng.Blob.KeyIdentifier.RoundTrip as Identifier
use dpapi_ng.Blob.DpapingBlob.{DpapingBlob, pack, unpack, target_sd}
use dpapi_ng.Blob.DpapingBlob.Pack.{blob_of, IsPackable}
use dpapi_ng.Blob.DpapingBlob.RoundTrip.{unpack-pack_blob}
use dpapi_ng.Blob.DpapingBlob.Size.{blob_octets-Fits}
use dpapi_ng.Pkcs7.{optional_rest}
use dpapi_ng.Pkcs7.Layout.{sequence_tag, octets_tag}
use dpapi_ng.Crypto.{Kdfs}
use dpapi_ng.Crypto.Content.{
  Ciphers, CekRandom, aes256_wrap, aes256_gcm, cek_generate, content_iv, cek_encrypt, cek_decrypt,
  content_encrypt, content_decrypt,
}
use dpapi_ng.Crypto.Content.Laws.{
  IsLawful, content_iv-tlv, cek_decrypt-cek_encrypt, content_decrypt-content_encrypt,
}
use dpapi_ng.Gkdi.Envelope.{GroupKeyEnvelope}
use dpapi_ng.Gkdi.Kek.{Curves, get_kek, new_kek}
use dpapi_ng.Client.Secret.{write_parameters, content_parameters, decrypt_blob, encrypt_blob}

abbrev wrap : Oid
wrap = record { first = 2; second = 16; others = 840 ∷ 1 ∷ 101 ∷ 3 ∷ 4 ∷ 1 ∷ 45 ∷ [] }

abbrev gcm : Oid
gcm = record { first = 2; second = 16; others = 840 ∷ 1 ∷ 101 ∷ 3 ∷ 4 ∷ 1 ∷ 46 ∷ [] }

wrap-text : oid_text wrap ≡ aes256_wrap
unfolding oid_text dotted decimal decimal_from
wrap-text = refl

gcm-text : oid_text gcm ≡ aes256_gcm
unfolding oid_text dotted decimal decimal_from
gcm-text = refl

-- The parameters that stand for a nonce.
parameters_of : Bytes → Bytes
parameters_of iv = tlv sequence_tag (tlv octets_tag iv ++ integer_tlv 16)

content_parameters-ok : (iv : Bytes) → content_parameters iv ≡ ok (parameters_of iv)
unfolding content_parameters write_parameters parameters_of extend get_data
content_parameters-ok iv = rw (
    Writes-sequence none (write_parameters iv) _ (omega arith)
      (Writes-then _ _ _ _ (Writes-octet_string none iv (omega arith)) (Writes-integer 16))
      (root []))

some-optional_rest : (xs : Bytes) → 0 < length xs → some xs ≡ optional_rest xs
some-optional_rest [] h = absurd (omega arith)
some-optional_rest (x ∷ xs) h = refl

constant_bounds :
    (length (oid_bytes wrap) ≤ 20) × (length (oid_bytes gcm) ≤ 20) × (length (integer_tlv 16) ≤ 20)
unfolding oid_bytes oid_tlv arc_bytes high_octets tlv header_bytes identifier_bytes pack_identifier
    length_bytes octet_count integer_tlv octets_of more_octets
constant_bounds = omega arith

length-parameters_of :
    (iv : Bytes)
    → length iv ≡ 12
    → (FitsLength (length (tlv octets_tag iv ++ integer_tlv 16)))
      × (length (parameters_of iv) ≤ 60)
      × (0 < length (parameters_of iv))
unfolding parameters_of
length-parameters_of iv h =
    let (_, _, sixteen) = constant_bounds in
    let a = length-append (tlv octets_tag iv) (integer_tlv 16) in
    let b = length-tlv octets_tag iv (omega arith) (omega arith) in
    let c =
      length-tlv sequence_tag (tlv octets_tag iv ++ integer_tlv 16) (omega arith) (omega arith) in
    let d = tlv_pos sequence_tag (tlv octets_tag iv ++ integer_tlv 16) (omega arith) in
    (omega arith, omega arith, d)

module _ (c : Kdfs) (ec : Curves) (ci : Ciphers) (law : IsLawful ci) (random : CekRandom)
    (urandom : ℕ → Bytes) (enc dec : GroupKeyEnvelope) (kek : Bytes) (key_id : KeyIdentifier)
    (value sd : Bytes) (pd : Text) where
  -- What the blob is made of: a key encryption key with its identifier, random bytes as long as they
  -- were asked for, an encodable descriptor, and parts of less than 2 GiB together.
  pub record IsProtectable : Type 0 where
    pub made : new_kek c ec urandom enc ≡ ok (kek, key_id)
    pub kek_length : length kek ≡ 32
    pub cek_length : length (random.generate_key 256) ≡ 32
    pub iv_length : length (random.urandom 12) ≡ 12
    pub identifier : Identifier.IsValid key_id
    pub descriptor : All IsChar pd
    pub size : length (Identifier.layout key_id) + length (utf8_bytes pd) + length value < 2 ^ 31

  module _ (h : IsProtectable) where
    abbrev cek : Bytes
    cek = random.generate_key 256

    abbrev iv : Bytes
    iv = random.urandom 12

    abbrev parameters : Bytes
    parameters = parameters_of iv

    iv_found : content_iv (some parameters) ≡ ok iv
    iv_found =
        let (fits, _, full) = length-parameters_of iv h.iv_length in
        rw (some-optional_rest parameters full)
          (unfold parameters_of in content_iv-tlv iv (integer_tlv 16) fits)

    -- The wrapped key and the sealed content.
    wrapped_key :
        (wrapped : Bytes) × (cek_encrypt ci aes256_wrap none kek cek ≡ ok wrapped)
        × (length wrapped ≡ 40)
        × (cek_decrypt ci aes256_wrap none kek wrapped ≡ ok cek)
    wrapped_key = cek_decrypt-cek_encrypt ci law kek cek h.kek_length h.cek_length

    sealed_content :
        (sealed : Bytes) × (content_encrypt ci aes256_gcm (some parameters) cek value ≡ ok sealed)
        × (length sealed ≡ length value + 16)
        × (content_decrypt ci aes256_gcm (some parameters) cek sealed ≡ ok value)
    sealed_content =
        let small = h.size in
        content_decrypt-content_encrypt ci law (some parameters) cek iv value iv_found h.cek_length
          h.iv_length (omega arith)

    abbrev wrapped : Bytes
    wrapped = wrapped_key.0

    abbrev sealed : Bytes
    sealed = sealed_content.0

    abbrev the_blob : DpapingBlob
    the_blob = blob_of key_id sd wrapped wrap sealed gcm parameters

    same_blob :
        record {
          key_identifier = key_id;
          security_descriptor = sd;
          enc_cek = wrapped;
          enc_cek_algorithm = aes256_wrap;
          enc_cek_parameters = none;
          enc_content = sealed;
          enc_content_algorithm = aes256_gcm;
          enc_content_parameters = some parameters;
        }
        ≡ the_blob
    same_blob =
        let (_, _, full) = length-parameters_of iv h.iv_length in
        rw (wrap-text, gcm-text, some-optional_rest parameters full)

    encrypted : encrypt_blob c ec ci random urandom value enc sd pd ≡ pack the_blob pd true
    unfolding encrypt_blob cek_generate
    encrypted = rw (content_parameters-ok iv, sealed_content.1, h.made, wrapped_key.1, same_blob)

    packable : IsPackable key_id sd wrapped wrap sealed gcm parameters pd true
    packable =
        let small = h.size in
        let (wrap_le, gcm_le, _) = constant_bounds in
        let (_, parameters_le, _) = length-parameters_of iv h.iv_length in
        let wrapped_le = wrapped_key.2 in
        let sealed_le = sealed_content.2 in
        record {
          identifier = h.identifier;
          cek_algorithm = record { first = omega arith; second = omega arith; octet = omega arith };
          content_algorithm = record {
            first = omega arith;
            second = omega arith;
            octet = omega arith;
          };
          descriptor = h.descriptor;
          size =
              blob_octets-Fits key_id sd wrapped wrap sealed gcm parameters pd (2 ^ 31 + 400)
                (omega arith) (omega arith) true;
        }

    decrypted : get_kek c ec dec key_id ≡ ok kek → decrypt_blob c ec ci the_blob dec ≡ ok value
    unfolding decrypt_blob
    decrypted got =
        let (_, _, full) = length-parameters_of iv h.iv_length in
        rw (
          got,
          wrap-text,
          wrapped_key.3,
          gcm-text,
          ← some-optional_rest parameters full,
          sealed_content.3,
        )

    -- The blob that DPAPINGBlob.unpack reads in what _encrypt_blob returns.
    unpacked_blob :
        (digit : ℕ → Option ℕ)
        → target_sd digit pd ≡ ok sd
        → (encrypt_blob c ec ci random urandom value enc sd pd >>= unpack digit) ≡ ok the_blob
    unpacked_blob digit sd_ok = rw (
      encrypted,
      unpack-pack_blob key_id sd wrapped wrap sealed gcm parameters pd true packable digit sd_ok,
    )

    -- What a client sees of the round trip: the octets, the blob in them, and its decryption.
    pub decrypt_blob-encrypt_blob :
        (digit : ℕ → Option ℕ)
        → get_kek c ec dec key_id ≡ ok kek
        → target_sd digit pd ≡ ok sd
        → (octets : Bytes) × (blob : DpapingBlob) × (encrypt_blob c ec ci random urandom value enc
              sd pd
            ≡ ok octets)
          × (unpack digit octets ≡ ok blob)
          × (blob.key_identifier ≡ key_id)
          × (blob.security_descriptor ≡ sd)
          × (decrypt_blob c ec ci blob dec ≡ ok value)
    decrypt_blob-encrypt_blob digit got sd_ok =
        let (octets, made, read) = >>=-eq-ok _ (unpack digit) (unpacked_blob digit sd_ok) in
        (octets, the_blob, made, read, refl, refl, decrypted got)
