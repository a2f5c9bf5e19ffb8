-- ===== src/Client/Secret.antt =====
-- _encrypt_blob and _decrypt_blob of src/dpapi_ng/_client.py.
pub mod Recover
pub mod RoundTrip
use dpapi_ng.Base.{ℕ, Option, none, some, List, [], ◌∷◌, true, Result, ok, ◌>>=◌, pos}
use dpapi_ng.Bytes.{Bytes}
use dpapi_ng.Bytes.Text.{Text}
use dpapi_ng.Asn1.Writer.{
  Asn1Writer, root, push_sequence, within, write_integer, write_octet_string, get_data,
}
use dpapi_ng.Crypto.{Kdfs}
use dpapi_ng.Crypto.Content.{
  Ciphers, CekRandom, aes256_wrap, aes256_gcm, cek_generate, cek_encrypt, cek_decrypt,
  content_encrypt, content_decrypt,
}
use dpapi_ng.Gkdi.Envelope.{GroupKeyEnvelope}
use dpapi_ng.Gkdi.Kek.{Curves, get_kek, new_kek}
use dpapi_ng.Blob.DpapingBlob.{DpapingBlob, pack}
use dpapi_ng.Pkcs7.{optional_rest}

-- parameters
unfoldable pub write_parameters : Bytes → Asn1Writer → Result Asn1Writer
write_parameters cek_iv writer = do
  writer' ← write_octet_string none cek_iv writer
  write_integer none (pos 16) writer'

unfoldable pub content_parameters : Bytes → Result Bytes
content_parameters cek_iv = do
  writer ← within (push_sequence none) (write_parameters cek_iv) (root [])
  get_data writer

module _ (c : Kdfs) (ec : Curves) (ci : Ciphers) where
  unfoldable pub decrypt_blob : DpapingBlob → GroupKeyEnvelope → Result Bytes
  decrypt_blob blob key = do
    kek ← get_kek c ec key blob.key_identifier
    cek ← cek_decrypt ci blob.enc_cek_algorithm blob.enc_cek_parameters kek blob.enc_cek
    content_decrypt ci blob.enc_content_algorithm blob.enc_content_parameters cek blob.enc_content

  -- `random` is the source in cek_generate, and `urandom` the one in new_kek.
  unfoldable pub encrypt_blob :
      CekRandom → (ℕ → Bytes) → Bytes → GroupKeyEnvelope → Bytes → Text → Result Bytes
  encrypt_blob random urandom blob key security_descriptor protection_descriptor = do
    (cek, cek_iv) ← cek_generate random aes256_wrap
    enc_content_parameters ← content_parameters cek_iv
    enc_content ← content_encrypt ci aes256_gcm (some enc_content_parameters) cek blob
    (kek, key_identifier) ← new_kek c ec urandom key
    enc_cek ← cek_encrypt ci aes256_wrap none kek cek
    pack
        (record {
          key_identifier = key_identifier;
          security_descriptor = security_descriptor;
          enc_cek = enc_cek;
          enc_cek_algorithm = aes256_wrap;
          enc_cek_parameters = none;
          enc_content = enc_content;
          enc_content_algorithm = aes256_gcm;
          enc_content_parameters = some enc_content_parameters;
        })
        protection_descriptor true
