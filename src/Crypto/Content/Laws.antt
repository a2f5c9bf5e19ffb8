-- ===== src/Crypto/Content/Laws.antt =====
-- What the package cryptography documents of AES key wrap (RFC 3394) and AES-GCM, and what
-- src/dpapi_ng/_crypto.py makes of it.
use dpapi_ng.Base.{
  ◌+◌, ◌^◌, ◌<◌, ◌≡◌, refl, arith, Option, none, [], ◌∷◌, ◌++◌, append-nil, length, ok, ◌>>=◌,
}
use dpapi_ng.Bytes.{Bytes}
use dpapi_ng.Asn1.Header.LengthOctets.{FitsLength}
use dpapi_ng.Asn1.Validate.{tlv, tlv_pos, Fits-left, Fits-content}
use dpapi_ng.Asn1.Reader as Reader
use dpapi_ng.Pkcs7.{optional_rest}
use dpapi_ng.Pkcs7.Layout.{sequence_tag, octets_tag, sequence_lem, octets_lem}
use dpapi_ng.Crypto.Content.{
  aes256_wrap, aes256_gcm, Ciphers, content_iv, cek_decrypt, cek_encrypt, content_decrypt,
  content_encrypt,
}

-- A key of 32 bytes wraps one of 32 bytes into 40, and with a nonce of 12 bytes AES-GCM adds a tag of
-- 16 bytes; the same key takes both back.
pub record IsLawful (ci : Ciphers) : Type 0 where
  pub wrap :
      (kek cek : Bytes)
      → length kek ≡ 32
      → length cek ≡ 32
      → (wrapped : Bytes) × (ci.aes_key_wrap kek cek ≡ ok wrapped)
        × (length wrapped ≡ 40)
        × (ci.aes_key_unwrap kek wrapped ≡ ok cek)
  pub gcm :
      (cek iv value : Bytes)
      → length cek ≡ 32
      → length iv ≡ 12
      → length value < 2 ^ 31
      → (sealed : Bytes) × (ci.gcm_encrypt cek iv value ≡ ok sealed)
        × (length sealed ≡ length value + 16)
        × (ci.gcm_decrypt cek iv sealed ≡ ok value)

content_iv-read :
    (xs : Bytes)
    → 0 < length xs
    → content_iv (optional_rest xs) ≡ (
        Reader.read_sequence none none xs >>= λ p.
        (Reader.read_octet_string none none p.0 >>= λ q. ok q.0))
unfolding content_iv
content_iv-read [] h = absurd (omega arith)
content_iv-read (x ∷ xs) h = refl

-- A sequence that starts with the nonce.
pub content_iv-tlv :
    (iv more : Bytes)
    → FitsLength (length (tlv octets_tag iv ++ more))
    → content_iv (optional_rest (tlv sequence_tag (tlv octets_tag iv ++ more))) ≡ ok iv
content_iv-tlv iv more fits =
    let inner = tlv octets_tag iv ++ more in
    let outer : Reader.read_sequence none none (tlv sequence_tag inner) ≡ ok (inner, []) =
      rw append-nil at (sequence_lem inner [] fits) in
    rw (
      content_iv-read (tlv sequence_tag inner) (tlv_pos sequence_tag inner (omega arith)),
      outer,
      octets_lem iv more (Fits-content octets_tag iv (Fits-left (tlv octets_tag iv) more fits)),
    )

module _ (ci : Ciphers) (law : IsLawful ci) where
  pub cek_decrypt-cek_encrypt :
      (kek cek : Bytes)
      → length kek ≡ 32
      → length cek ≡ 32
      → (wrapped : Bytes) × (cek_encrypt ci aes256_wrap none kek cek ≡ ok wrapped)
        × (length wrapped ≡ 40)
        × (cek_decrypt ci aes256_wrap none kek wrapped ≡ ok cek)
  unfolding cek_encrypt cek_decrypt
  cek_decrypt-cek_encrypt kek cek h k = law.wrap kek cek h k

  pub content_decrypt-content_encrypt :
      (parameters : Option Bytes) (cek iv value : Bytes)
      → content_iv parameters ≡ ok iv
      → length cek ≡ 32
      → length iv ≡ 12
      → length value < 2 ^ 31
      → (sealed : Bytes) × (content_encrypt ci aes256_gcm parameters cek value ≡ ok sealed)
        × (length sealed ≡ length value + 16)
        × (content_decrypt ci aes256_gcm parameters cek sealed ≡ ok value)
  unfolding content_encrypt content_decrypt
  content_decrypt-content_encrypt parameters cek iv value e h k small =
      rw e (law.gcm cek iv value h k small)
