-- ===== src/Gkdi/Kek.antt =====
-- The key encryption keys of src/dpapi_ng/_gkdi.py: compute_kek, compute_kek_from_public_key,
-- compute_public_key, GroupKeyEnvelope.get_kek and GroupKeyEnvelope.new_kek. os.urandom is the
-- parameter `urandom`; the unused argument secret_parameters of the source is left out.
pub mod Length
pub mod Agreement
pub mod Recover
use Prim.Native.String.{String}
use dpapi_ng.Base.{
  ℕ, zero, suc, ◌+◌, ◌/◌, ◌%◌, ◌^◌, Bool, true, false, ◌&&◌, not, ◌==◌, List, [], ◌∷◌, ◌++◌,
  bytes_eq, if◌then◌else◌, Result, ok, err, ◌>>=◌, value_error, not_implemented,
}
use dpapi_ng.Bytes.{Bytes, from_be, to_bytes_be}
use dpapi_ng.Bytes.Text.{Text, text, encode_utf16, utf16_bytes}
use dpapi_ng.Blob.KeyIdentifier.{KeyIdentifier}
use dpapi_ng.Blob.KeyIdentifier as Identifier
use dpapi_ng.Crypto.{HashAlgorithm, sha256, digest_size, Kdfs, kdf, kdf_concat}
use dpapi_ng.Gkdi.Envelope.{GroupKeyEnvelope, is_public_key}
use dpapi_ng.Gkdi.KdfParameters.{named_algorithm}
use dpapi_ng.Gkdi.Context.{kds_service_label}
use dpapi_ng.Gkdi.Derive.{compute_l2_key}
use dpapi_ng.Gkdi.PublicKey.Ffcdh.{FfcdhKey, pack_key, unpack_key}
use dpapi_ng.Gkdi.PublicKey.Ecdh.{EcdhKey, EllipticCurve, curve_and_hash, pack_ecdh, unpack_ecdh}

-- What `cryptography` computes on curves, each call a ValueError where it refuses its argument:
-- EllipticCurvePublicNumbers(x, y, curve).public_key(), derive_private_key(value, curve),
-- private.exchange(ECDH(), public) and private.public_key().public_numbers().
pub record Curves : Type 1 where
  pub PublicKey : Type 0
  pub PrivateKey : Type 0
  pub public_key : EllipticCurve → ℕ → ℕ → Result PublicKey
  pub derive_private_key : EllipticCurve → ℕ → Result PrivateKey
  pub exchange : PrivateKey → PublicKey → Result Bytes
  pub public_numbers : PrivateKey → ℕ × ℕ

-- pow(base, exponent, modulus)
unfoldable pub pow_mod : ℕ → ℕ → ℕ → Result ℕ
pow_mod base exponent modulus =
    if modulus == 0 then err value_error else ok (base ^ exponent % modulus)

-- text.startswith(prefix)
abbrev pub starts_with : Text → Text → Bool
starts_with [] s = true
starts_with (x ∷ xs) [] = false
starts_with (x ∷ xs) (y ∷ ys) = x == y && starts_with xs ys

-- math.ceil(n / 8): exact below 2 ^ 53, above any 32-bit field
abbrev pub bits_to_bytes : ℕ → ℕ
bits_to_bytes n = (n + 7) / 8

-- "KDS public key\0".encode("utf-16-le") and "SHA512\0".encode("utf-16-le")
unfoldable pub kek_context : Bytes
kek_context = utf16_bytes (text "KDS public key" ++ (0 ∷ []))

unfoldable pub sha512_label : Bytes
sha512_label = utf16_bytes (text "SHA512" ++ (0 ∷ []))

module _ (c : Kdfs) (ec : Curves) where
  -- The shared secret of DH, with the hash for it
  unfoldable pub dh_secret : Bytes → Bytes → Result (Bytes × HashAlgorithm)
  dh_secret private_key public_key = do
    dh_pub_key ← unpack_key public_key
    shared_secret_int ← pow_mod dh_pub_key.public_key (from_be private_key) dh_pub_key.field_order
    shared_secret ← to_bytes_be dh_pub_key.key_length shared_secret_int
    ok (shared_secret, sha256)

  unfoldable pub ecdh_secret : Bytes → Bytes → Result (Bytes × HashAlgorithm)
  ecdh_secret private_key public_key = do
    ecdh_pub_key_info ← unpack_ecdh public_key
    (curve, secret_hash_algorithm) ← curve_and_hash ecdh_pub_key_info
    ecdh_pub_key ← ec.public_key curve ecdh_pub_key_info.x ecdh_pub_key_info.y
    ecdh_private ← ec.derive_private_key curve (from_be private_key)
    shared_secret ← ec.exchange ecdh_private ecdh_pub_key
    ok (shared_secret, secret_hash_algorithm)

  unfoldable pub agreed_secret : Text → Bytes → Bytes → Result (Bytes × HashAlgorithm)
  agreed_secret secret_algorithm private_key public_key =
      if bytes_eq secret_algorithm (text "DH")
      then dh_secret private_key public_key
      else if starts_with (text "ECDH_P") secret_algorithm
      then ecdh_secret private_key public_key
      else err not_implemented

  -- The key that compute_kek makes of the shared secret
  unfoldable pub secret_kek : HashAlgorithm → Bytes × HashAlgorithm → Bytes
  secret_kek algorithm (shared_secret, secret_hash_algorithm) =
      let secret =
        kdf_concat c secret_hash_algorithm shared_secret sha512_label kek_context kds_service_label
          (digest_size secret_hash_algorithm) in
      kdf c algorithm secret kds_service_label kek_context 32

  unfoldable pub compute_kek : HashAlgorithm → Text → Bytes → Bytes → Result Bytes
  compute_kek algorithm secret_algorithm private_key public_key = do
    shared ← agreed_secret secret_algorithm private_key public_key
    ok (secret_kek algorithm shared)

  unfoldable pub compute_kek_from_public_key :
      HashAlgorithm → Bytes → Text → Bytes → ℕ → Result Bytes
  compute_kek_from_public_key algorithm seed secret_algorithm public_key private_key_length = do
    context ← encode_utf16 (secret_algorithm ++ (0 ∷ []))
    compute_kek algorithm secret_algorithm
        (kdf c algorithm seed kds_service_label context private_key_length) public_key

  unfoldable pub dh_public_key : Bytes → Bytes → Result Bytes
  dh_public_key private_key peer_public_key = do
    dh_pub_key ← unpack_key peer_public_key
    my_pub_key ← pow_mod dh_pub_key.generator (from_be private_key) dh_pub_key.field_order
    pack_key (record {
      key_length = dh_pub_key.key_length;
      field_order = dh_pub_key.field_order;
      generator = dh_pub_key.generator;
      public_key = my_pub_key;
    })

  unfoldable pub ecdh_public_key : Bytes → Bytes → Result Bytes
  ecdh_public_key private_key peer_public_key = do
    ecdh_pub_key ← unpack_ecdh peer_public_key
    (curve, hash) ← curve_and_hash ecdh_pub_key
    ecdh_private ← ec.derive_private_key curve (from_be private_key)
    let (x, y) = ec.public_numbers ecdh_private
    pack_ecdh (record {
      curve_name = ecdh_pub_key.curve_name;
      key_length = ecdh_pub_key.key_length;
      x = x;
      y = y;
    })

  unfoldable pub compute_public_key : Text → Bytes → Bytes → Result Bytes
  compute_public_key secret_algorithm private_key peer_public_key =
      if bytes_eq secret_algorithm (text "DH")
      then dh_public_key private_key peer_public_key
      else if starts_with (text "ECDH_P") secret_algorithm
      then ecdh_public_key private_key peer_public_key
      else err not_implemented

  -- The end of get_kek, with the level 2 key at hand
  unfoldable pub kek_of_l2_key :
      GroupKeyEnvelope → KeyIdentifier → HashAlgorithm → Bytes → Result Bytes
  kek_of_l2_key rk key_id hash_algo l2_key =
      if Identifier.is_public_key key_id
      then compute_kek_from_public_key hash_algo l2_key rk.secret_algorithm key_id.key_info
          (bits_to_bytes rk.private_key_length)
      else ok (kdf c hash_algo l2_key kds_service_label key_id.key_info 32)

  -- GroupKeyEnvelope.get_kek
  unfoldable pub get_kek : GroupKeyEnvelope → KeyIdentifier → Result Bytes
  get_kek rk key_id =
      if is_public_key rk
      then err value_error
      else if not (rk.l0 == key_id.l0)
      then err value_error
      else if not (bytes_eq rk.kdf_algorithm (text "SP800_108_CTR_HMAC"))
      then err not_implemented
      else do
        hash_algo ← named_algorithm rk.kdf_parameters
        l2_key ← compute_l2_key c hash_algo rk key_id.l1 key_id.l2
        kek_of_l2_key rk key_id hash_algo l2_key

  -- The two branches of new_kek: the key, and the key_info that it is stored under
  unfoldable pub new_public_kek :
      (ℕ → Bytes) → GroupKeyEnvelope → HashAlgorithm → Result (Bytes × Bytes)
  new_public_kek urandom rk hash_algo = do
    let private_key = urandom (bits_to_bytes rk.private_key_length)
    kek ← compute_kek hash_algo rk.secret_algorithm private_key rk.l2_key
    key_info ← compute_public_key rk.secret_algorithm private_key rk.l2_key
    ok (kek, key_info)

  unfoldable pub new_secret_kek : (ℕ → Bytes) → GroupKeyEnvelope → HashAlgorithm → Bytes × Bytes
  new_secret_kek urandom rk hash_algo =
      (kdf c hash_algo rk.l2_key kds_service_label (urandom 32) 32, urandom 32)

  unfoldable pub new_identifier : GroupKeyEnvelope → Bytes → KeyIdentifier
  new_identifier rk key_info = record {
    version = 1;
    flags = rk.flags;
    l0 = rk.l0;
    l1 = rk.l1;
    l2 = rk.l2;
    root_key_identifier = rk.root_key_identifier;
    key_info = key_info;
    domain_name = rk.domain_name;
    forest_name = rk.forest_name;
  }

  -- GroupKeyEnvelope.new_kek
  unfoldable pub new_kek : (ℕ → Bytes) → GroupKeyEnvelope → Result (Bytes × KeyIdentifier)
  new_kek urandom rk =
      if not (bytes_eq rk.kdf_algorithm (text "SP800_108_CTR_HMAC"))
      then err not_implemented
      else do
        hash_algo ← named_algorithm rk.kdf_parameters
        (kek, key_info) ←
            (if is_public_key rk
              then new_public_kek urandom rk hash_algo
              else ok (new_secret_kek urandom rk hash_algo))
        ok (kek, new_identifier rk key_info)
