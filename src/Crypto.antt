-- ===== src/Crypto.antt =====
-- src/dpapi_ng/_crypto.py: the key derivation functions.
pub mod Content
use dpapi_ng.Base.{ℕ, [], ◌∷◌}
use dpapi_ng.Bytes.{Bytes, join}

-- The hash objects of `cryptography` that the source makes.
pub data HashAlgorithm : Type 0 where
  sha1 sha256 sha384 sha512 : HashAlgorithm

-- HashAlgorithm.digest_size
unfoldable pub digest_size : HashAlgorithm → ℕ
digest_size sha1 = 20
digest_size sha256 = 32
digest_size sha384 = 48
digest_size sha512 = 64

pub data Mode : Type 0 where
  counter_mode : Mode

pub data CounterLocation : Type 0 where
  before_fixed : CounterLocation

-- The arguments of KBKDFHMAC.
pub record KbkdfConfig : Type 0 where
  pub algorithm : HashAlgorithm
  pub mode : Mode
  pub length : ℕ
  pub label : Bytes
  pub context : Bytes
  pub rlen : ℕ
  pub llen : ℕ
  pub location : CounterLocation

-- The arguments of ConcatKDFHash.
pub record ConcatKdfConfig : Type 0 where
  pub algorithm : HashAlgorithm
  pub length : ℕ
  pub otherinfo : Bytes

-- What `cryptography` computes: KBKDFHMAC(config).derive(secret) and ConcatKDFHash(config).derive(secret).
pub record Kdfs : Type 0 where
  pub kbkdf : KbkdfConfig → Bytes → Bytes
  pub concat_kdf : ConcatKdfConfig → Bytes → Bytes

module _ (c : Kdfs) where
  unfoldable pub kdf : HashAlgorithm → Bytes → Bytes → Bytes → ℕ → Bytes
  kdf algorithm secret label context length =
      c.kbkdf
        (record {
          algorithm = algorithm;
          mode = counter_mode;
          length = length;
          label = label;
          context = context;
          rlen = 4;
          llen = 4;
          location = before_fixed;
        })
        secret

  unfoldable pub kdf_concat : HashAlgorithm → Bytes → Bytes → Bytes → Bytes → ℕ → Bytes
  kdf_concat algorithm shared_secret algorithm_id party_uinfo party_vinfo length =
      c.concat_kdf
        (record {
          algorithm = algorithm;
          length = length;
          otherinfo = join (algorithm_id ∷ party_uinfo ∷ party_vinfo ∷ []);
        })
        shared_secret
