-- ===== src/Crypto/Content.antt =====
-- src/dpapi_ng/_crypto.py: the encryption of a content encryption key (CEK) and of a content. AES key
-- wrap and AES-GCM of the package cryptography are the parameter Ciphers, and what a random source
-- returns is an argument.
pub mod Laws
use dpapi_ng.Base.{
  ℕ, Option, none, some, List, [], ◌∷◌, bytes_eq, if◌then◌else◌, Result, err, ok, ◌>>=◌,
  value_error, not_implemented,
}
use dpapi_ng.Bytes.{Bytes}
use dpapi_ng.Bytes.Text.{Text, text}
use dpapi_ng.Asn1.Reader.{read_sequence, read_octet_string}

abbrev pub aes256_wrap : Text
aes256_wrap = text "2.16.840.1.101.3.4.1.45"

abbrev pub aes256_gcm : Text
aes256_gcm = text "2.16.840.1.101.3.4.1.46"

-- keywrap.aes_key_wrap(kek, value), keywrap.aes_key_unwrap(kek, value), and
-- AESGCM(cek).encrypt(iv, value, None) and .decrypt(iv, value, None)
pub record Ciphers : Type 0 where
  pub aes_key_wrap : Bytes → Bytes → Result Bytes
  pub aes_key_unwrap : Bytes → Bytes → Result Bytes
  pub gcm_encrypt : Bytes → Bytes → Bytes → Result Bytes
  pub gcm_decrypt : Bytes → Bytes → Bytes → Result Bytes

-- AESGCM.generate_key(bit_length) and os.urandom(n) in one call of cek_generate
pub record CekRandom : Type 0 where
  pub generate_key : ℕ → Bytes
  pub urandom : ℕ → Bytes

unfoldable pub cek_generate : CekRandom → Text → Result (Bytes × Bytes)
cek_generate random algorithm =
    if bytes_eq algorithm aes256_wrap
    then ok (random.generate_key 256, random.urandom 12)
    else err not_implemented

-- The nonce in the parameters of a content; None and b"" are no parameters
unfoldable pub content_iv : Option Bytes → Result Bytes
content_iv none = err value_error
content_iv (some []) = err value_error
content_iv (some (b ∷ parameters)) = do
  (reader, _) ← read_sequence none none (b ∷ parameters)
  (iv, _) ← read_octet_string none none reader
  ok iv

module _ (ci : Ciphers) where
  unfoldable pub cek_decrypt : Text → Option Bytes → Bytes → Bytes → Result Bytes
  cek_decrypt algorithm parameters kek value =
      if bytes_eq algorithm aes256_wrap then ci.aes_key_unwrap kek value else err not_implemented

  unfoldable pub cek_encrypt : Text → Option Bytes → Bytes → Bytes → Result Bytes
  cek_encrypt algorithm parameters kek value =
      if bytes_eq algorithm aes256_wrap then ci.aes_key_wrap kek value else err not_implemented

  unfoldable pub content_decrypt : Text → Option Bytes → Bytes → Bytes → Result Bytes
  content_decrypt algorithm parameters cek value =
      if bytes_eq algorithm aes256_gcm
      then (do iv ← content_iv parameters; ci.gcm_decrypt cek iv value)
      else err not_implemented

  unfoldable pub content_encrypt : Text → Option Bytes → Bytes → Bytes → Result Bytes
  content_encrypt algorithm parameters cek value =
      if bytes_eq algorithm aes256_gcm
      then (do iv ← content_iv parameters; ci.gcm_encrypt cek iv value)
      else err not_implemented
