-- ===== src/Tests/Secret.antt =====
-- A value that is encrypted and decrypted, with stand-ins for the functions of `cryptography` whose
-- results have the documented lengths.
use dpapi_ng.Base.{
  ℕ, ◌+◌, ◌*◌, ◌%◌, ◌≡◌, refl, arith, inl, false, [], ◌∷◌, ◌++◌, length-append, length-replicate,
  replicate, drop_last, drop_last-append, ok, ◌>>=◌, ◌/◌,
}
use dpapi_ng.Bytes.{Bytes, from_le}
use dpapi_ng.Crypto.{Kdfs, sha512}
use dpapi_ng.Crypto.Content.{Ciphers, CekRandom}
use dpapi_ng.Crypto.Content.Laws.{IsLawful}
use dpapi_ng.Gkdi.Derive.Chain.{IsGenuine, l1_key_at, l2_key_at}
use dpapi_ng.Gkdi.Envelope.{GroupKeyEnvelope, is_public_key}
use dpapi_ng.Gkdi.Kek.{new_identifier}
use dpapi_ng.Gkdi.Kek.Length.{DerivesLength}
use dpapi_ng.Gkdi.Kek.Recover.{SameKey, group_key}
use dpapi_ng.Blob.KeyIdentifier.RoundTrip.{layout}
use dpapi_ng.Blob.DpapingBlob.{unpack}
use dpapi_ng.Client.Secret.{encrypt_blob, decrypt_blob}
use dpapi_ng.Client.Secret.RoundTrip.{IsStorable, decrypt-encrypt_secret}
use dpapi_ng.Tests.Data.{root_id, root_id-IsUuid, seed, sha512_named, envelope_at, test_curves}
use dpapi_ng.Tests.Structures.{chars}
use dpapi_ng.Tests.Blob.{digit, user, user_sd, user_sd-ok}

-- A key whose bytes are all one byte, which depends on the input.
abbrev fill : ℕ → Bytes → Bytes → Bytes
fill n secret input = replicate n ((from_le secret * 31 + from_le input) % 251)

abbrev pub long_kdfs : Kdfs
long_kdfs = record {
  kbkdf = λ config secret. fill config.length secret config.context;
  concat_kdf = λ config secret. fill config.length secret config.otherinfo;
}

pub long_kdfs-derives : DerivesLength long_kdfs
long_kdfs-derives config secret =
    length-replicate config.length ((from_le secret * 31 + from_le config.context) % 251)

-- In place of the ciphers: eight zero bytes behind a key, and sixteen behind a content.
abbrev pub padding_ciphers : Ciphers
padding_ciphers = record {
  aes_key_wrap = λ kek cek. ok (cek ++ replicate 8 0);
  aes_key_unwrap = λ kek wrapped. ok (drop_last 8 wrapped);
  gcm_encrypt = λ cek iv value. ok (value ++ replicate 16 0);
  gcm_decrypt = λ cek iv sealed. ok (drop_last 16 sealed);
}

pub padding_ciphers-IsLawful : IsLawful padding_ciphers
padding_ciphers-IsLawful = record {
  wrap = λ kek cek h k. (
    cek ++ replicate 8 0,
    refl,
    omega (arith, length-append cek (replicate 8 0)),
    rw (drop_last-append cek (replicate 8 0)),
  );
  gcm = λ cek iv value h k small. (
    value ++ replicate 16 0,
    refl,
    omega (arith, length-append value (replicate 16 0)),
    rw (drop_last-append value (replicate 16 0)),
  );
}

abbrev pub random : CekRandom
random = record { generate_key = λ bits. replicate (bits / 8) 7; urandom = λ n. replicate n 3 }

abbrev pub urandom : ℕ → Bytes
urandom n = replicate n 5

abbrev pub dec_envelope : GroupKeyEnvelope
dec_envelope =
    envelope_at 2 20 7 (l1_key_at long_kdfs sha512 root_id 361 seed 12)
      (l2_key_at long_kdfs sha512 root_id 361 seed 11 24)

abbrev enc_envelope : GroupKeyEnvelope
enc_envelope = envelope_at 2 19 3 [] (l2_key_at long_kdfs sha512 root_id 361 seed 12 28)

pub dec_envelope-IsGenuine : IsGenuine long_kdfs sha512 seed dec_envelope
dec_envelope-IsGenuine = record {
  l0_range = omega arith;
  l1_range = omega arith;
  l2_range = omega arith;
  l1_full = λ e. absurd (omega arith);
  l1_below = λ h h'. refl;
  l2_full = λ h. refl;
}

same : SameKey long_kdfs sha512 seed enc_envelope dec_envelope
unfolding is_public_key
same = record {
  l0 = refl;
  l2 = omega arith;
  covers = inl (omega arith);
  genuine = dec_envelope-IsGenuine;
  seed = refl;
  enc_kdf = refl;
  dec_kdf = refl;
  enc_hash = sha512_named;
  dec_hash = sha512_named;
}

secret : is_public_key enc_envelope ≡ false
unfolding is_public_key
secret = refl

held : enc_envelope.l2_key ≡ group_key long_kdfs test_curves sha512 seed enc_envelope dec_envelope
unfolding group_key
held = refl

abbrev pub value : Bytes
value = 104 ∷ 105 ∷ []

storable : IsStorable (new_identifier long_kdfs test_curves enc_envelope (urandom 32)) value user
unfolding new_identifier layout
storable = record {
  identifier = record {
    version = omega arith;
    flags = omega arith;
    l0 = omega arith;
    l1 = omega arith;
    l2 = omega arith;
    root_key_identifier = root_id-IsUuid;
    key_info = omega arith;
    domain_name = chars enc_envelope.domain_name refl;
    domain_len = omega arith;
    forest_name = chars enc_envelope.forest_name refl;
    forest_len = omega arith;
  };
  descriptor = chars user refl;
  size = omega arith;
}

decrypt-encrypt_secret_example :
    ((encrypt_blob long_kdfs test_curves padding_ciphers random urandom value enc_envelope user_sd
          user
        >>= unpack digit)
      >>= λ blob. decrypt_blob long_kdfs test_curves padding_ciphers blob dec_envelope)
    ≡ ok value
decrypt-encrypt_secret_example =
    decrypt-encrypt_secret long_kdfs test_curves padding_ciphers long_kdfs-derives
      padding_ciphers-IsLawful random (record { cek = refl; iv = refl }) urandom sha512 seed
      enc_envelope dec_envelope same digit value user_sd user user_sd-ok secret held storable
