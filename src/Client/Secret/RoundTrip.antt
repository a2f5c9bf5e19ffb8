-- ===== src/Client/Secret/RoundTrip.antt =====
-- _encrypt_blob and _decrypt_blob of src/dpapi_ng/_client.py with two envelopes of one group key.
use dpapi_ng.Base.{ℕ, ◌+◌, ◌^◌, ◌<◌, ◌≡◌, subst, true, false, Option, length, All, ok, ◌>>=◌}
use dpapi_ng.Bytes.{Bytes}
use dpapi_ng.Bytes.Text.{Text, text, IsChar}
use dpapi_ng.Bytes.Utf8.{utf8_bytes}
use dpapi_ng.Blob.KeyIdentifier.{KeyIdentifier}
use dpapi_ng.Blob.KeyIdentifier.RoundTrip as Identifier
use dpapi_ng.Blob.DpapingBlob.{DpapingBlob, unpack, target_sd}
use dpapi_ng.Crypto.{Kdfs, HashAlgorithm}
use dpapi_ng.Crypto.Content.{Ciphers, CekRandom}
use dpapi_ng.Crypto.Content.Laws.{IsLawful}
use dpapi_ng.Gkdi.Envelope.{GroupKeyEnvelope, is_public_key}
use dpapi_ng.Gkdi.PublicKey.Ffcdh.{pack_key}
use dpapi_ng.Gkdi.Kek.{Curves, get_kek, new_kek, new_secret_kek, new_identifier}
use dpapi_ng.Gkdi.Kek.Agreement.{IsGroup, public_of}
use dpapi_ng.Gkdi.Kek.Length.{DerivesLength, length-new_kek}
use dpapi_ng.Gkdi.Kek.Recover.{
  SameKey, group_key, group_private_key, new_kek-secret, get_kek-new_kek_secret,
  get_kek-new_kek_public,
}
use dpapi_ng.Client.Secret.{encrypt_blob, decrypt_blob}
use dpapi_ng.Client.Secret.Recover.{decrypt_blob-encrypt_blob}

-- Random bytes for a content encryption key as long as they are asked for.
pub record IsRandom (random : CekRandom) : Type 0 where
  pub cek : length (random.generate_key 256) ≡ 32
  pub iv : length (random.urandom 12) ≡ 12

-- What goes into the blob, for a key identifier: it fits, and so does the whole.
pub record IsStorable (key_id : KeyIdentifier) (value : Bytes) (pd : Text) : Type 0 where
  pub identifier : Identifier.IsValid key_id
  pub descriptor : All IsChar pd
  pub size : length (Identifier.layout key_id) + length (utf8_bytes pd) + length value < 2 ^ 31

module _ (c : Kdfs) (ec : Curves) (ci : Ciphers) (derives : DerivesLength c) (law : IsLawful ci)
    (random : CekRandom) (is_random : IsRandom random) (urandom : ℕ → Bytes)
    (algorithm : HashAlgorithm) (l1_seed : Bytes) (enc dec : GroupKeyEnvelope)
    (same : SameKey c algorithm l1_seed enc dec) (digit : ℕ → Option ℕ) (value sd : Bytes)
    (pd : Text) (sd_ok : target_sd digit pd ≡ ok sd) where
  -- What a client sees of the round trip: the octets, the blob in them, and its decryption.
  abbrev pub IsRecovered : KeyIdentifier → Type 0
  IsRecovered key_id =
      (octets : Bytes) × (blob : DpapingBlob) × (encrypt_blob c ec ci random urandom value enc sd pd
        ≡ ok octets)
      × (unpack digit octets ≡ ok blob)
      × (blob.key_identifier ≡ key_id)
      × (blob.security_descriptor ≡ sd)
      × (decrypt_blob c ec ci blob dec ≡ ok value)

  IsRecovered-new_kek :
      (kek : Bytes) (key_id : KeyIdentifier)
      → new_kek c ec urandom enc ≡ ok (kek, key_id)
      → get_kek c ec dec key_id ≡ ok kek
      → IsStorable key_id value pd
      → IsRecovered key_id
  IsRecovered-new_kek kek key_id made got storable =
      decrypt_blob-encrypt_blob c ec ci law random urandom enc dec kek key_id value sd pd
        (record {
          made = made;
          kek_length = length-new_kek c ec derives urandom enc kek key_id made;
          cek_length = is_random.cek;
          iv_length = is_random.iv;
          identifier = storable.identifier;
          descriptor = storable.descriptor;
          size = storable.size;
        })
        digit got sd_ok

  round_trip :
      (key_id : KeyIdentifier)
      → IsRecovered key_id
      → ((encrypt_blob c ec ci random urandom value enc sd pd >>= unpack digit) >>= λ blob.
          decrypt_blob c ec ci blob dec)
        ≡ ok value
  round_trip key_id (octets, blob, made, read, _, _, decrypted) = rw (made, read, decrypted)

  -- The identifier that new_kek returns is the one that get_kek takes.
  recovered :
      (kek kek' : Bytes) (key_id key_id' : KeyIdentifier)
      → new_kek c ec urandom enc ≡ ok (kek, key_id)
      → new_kek c ec urandom enc ≡ ok (kek', key_id')
      → get_kek c ec dec key_id' ≡ ok kek'
      → get_kek c ec dec key_id ≡ ok kek
  recovered kek kek' key_id key_id' made made' got =
      let same_kek : kek' ≡ kek = cc in
      let same_id : key_id' ≡ key_id = cc in
      subst (λ k. get_kek c ec dec key_id ≡ ok k) same_kek
        (subst (λ i. get_kek c ec dec i ≡ ok kek') same_id got)

  pub decrypt-encrypt_parts :
      is_public_key enc ≡ false
      → enc.l2_key ≡ group_key c ec algorithm l1_seed enc dec
      → IsStorable (new_identifier c ec enc (urandom 32)) value pd
      → IsRecovered (new_identifier c ec enc (urandom 32))
  unfolding new_secret_kek
  decrypt-encrypt_parts secret held storable =
      let made = new_kek-secret c ec algorithm l1_seed enc dec same urandom secret in
      let (kek', key_id', made', got) =
        get_kek-new_kek_secret c ec algorithm l1_seed enc dec same urandom secret held in
      let key_id = new_identifier c ec enc (urandom 32) in
      let kek = (new_secret_kek c ec urandom enc algorithm).0 in
      IsRecovered-new_kek kek key_id made (recovered kek kek' key_id key_id' made made' got)
        storable

  -- For two envelopes of one group key (the second has the keys of the hierarchy, is no public
  -- key and covers the indices of the first; both name the KDF and the same hash), where the
  -- first is no public key and holds the hierarchy's level 2 key of its indices; key derivation
  -- that gives keys of the asked length, ciphers that take back what they did, a content key of
  -- 32 and a nonce of 12 random bytes; an encodable descriptor whose security descriptor is the
  -- given one, an identifier that fits and parts of less than 2 GiB together: _encrypt_blob
  -- with the first envelope succeeds, DPAPINGBlob.unpack takes what it returns, and
  -- _decrypt_blob with the second envelope gives the value back.
  pub decrypt-encrypt_secret :
      is_public_key enc ≡ false
      → enc.l2_key ≡ group_key c ec algorithm l1_seed enc dec
      → IsStorable (new_identifier c ec enc (urandom 32)) value pd
      → ((encrypt_blob c ec ci random urandom value enc sd pd >>= unpack digit) >>= λ blob.
          decrypt_blob c ec ci blob dec)
        ≡ ok value
  decrypt-encrypt_secret secret held storable =
      round_trip _ (decrypt-encrypt_parts secret held storable)

  pub decrypt-encrypt_public :
      (n p g : ℕ) (kek : Bytes) (key_id : KeyIdentifier)
      → IsGroup n p g
      → is_public_key enc ≡ true
      → enc.secret_algorithm ≡ text "DH"
      → dec.secret_algorithm ≡ text "DH"
      → pack_key (public_of n p g (group_private_key c ec algorithm l1_seed enc dec))
        ≡ ok enc.l2_key
      → new_kek c ec urandom enc ≡ ok (kek, key_id)
      → IsStorable key_id value pd
      → ((encrypt_blob c ec ci random urandom value enc sd pd >>= unpack digit) >>= λ blob.
          decrypt_blob c ec ci blob dec)
        ≡ ok value
  decrypt-encrypt_public n p g kek key_id group public enc_dh dec_dh held made storable =
      let (kek', key_id', made', got) =
        get_kek-new_kek_public c ec algorithm l1_seed enc dec same n p g urandom group public enc_dh
          dec_dh held in
      round_trip key_id (
        IsRecovered-new_kek kek key_id made (recovered kek kek' key_id key_id' made made' got)
          storable)
