-- ===== src/Tests/Data.antt =====
-- The inputs of the tests: a root key identifier, stand-ins for the functions of `cryptography`, and
-- envelopes of one group.
use dpapi_ng.Base.{ℕ, ◌+◌, ◌*◌, ◌%◌, ◌^◌, ◌≡◌, refl, arith, [], ◌∷◌, ok}
use dpapi_ng.Bytes.{Bytes, le_bytes, from_le}
use dpapi_ng.Bytes.Text.{text}
use dpapi_ng.Bytes.Uuid.{Uuid, IsUuid}
use dpapi_ng.Crypto.{sha512, Kdfs}
use dpapi_ng.Gkdi.Envelope.{GroupKeyEnvelope}
use dpapi_ng.Gkdi.Kek.{Curves}
use dpapi_ng.Gkdi.KdfParameters.{named_algorithm, unpack, hash_algorithm}
use dpapi_ng.Bytes.Text.{decode_utf16}
use dpapi_ng.Gkdi.Derive.Chain.{IsGenuine, l1_key_at, l2_key_at}

abbrev pub root_id : Uuid
root_id = record {
  time_low = 0xd778c271;
  time_mid = 0x9025;
  time_hi = 0x9a82;
  node = 0xf6dcb8960b8ad8c5;
}

pub root_id-IsUuid : IsUuid root_id
root_id-IsUuid = record {
  low = omega arith;
  mid = omega arith;
  hi = omega arith;
  node = omega arith;
}

-- Functions in place of the key derivations: one byte that depends on all of the input.
abbrev pub mix : Bytes → Bytes → Bytes
mix secret input = (from_le secret * 31 + from_le input) % 251 ∷ []

abbrev pub test_kdfs : Kdfs
test_kdfs = record {
  kbkdf = λ config secret. mix secret config.context;
  concat_kdf = λ config secret. mix secret config.otherinfo;
}

-- A curve in place of the real ones: the powers of 5 modulo 23.
abbrev pub test_curves : Curves
test_curves = record {
  PublicKey = ℕ;
  PrivateKey = ℕ;
  public_key = λ curve x y. ok x;
  derive_private_key = λ curve value. ok (value % 22);
  exchange = λ private public. ok (le_bytes 1 (public ^ private % 23));
  public_numbers = λ private. (5 ^ private % 23, 0);
}

abbrev pub seed : Bytes
seed = 8 ∷ 1 ∷ 200 ∷ 9 ∷ []

abbrev pub sha512_parameters : Bytes
sha512_parameters =
    0 ∷ 0 ∷ 0 ∷ 0 ∷ 1 ∷ 0 ∷ 0 ∷ 0 ∷ 14 ∷ 0 ∷ 0 ∷ 0 ∷ 0 ∷ 0 ∷ 0 ∷ 0 ∷ 83 ∷ 0 ∷ 72 ∷ 0 ∷ 65 ∷ 0 ∷ 53
    ∷ 0 ∷ 49 ∷ 0 ∷ 50 ∷ 0 ∷ 0 ∷ 0 ∷ []

pub sha512_named : named_algorithm sha512_parameters ≡ ok sha512
unfolding named_algorithm unpack hash_algorithm from_le decode_utf16
sha512_named = refl

-- The envelope of the group at (361, l1, l2) with the given keys.
abbrev pub envelope_at : ℕ → ℕ → ℕ → Bytes → Bytes → GroupKeyEnvelope
envelope_at flags l1 l2 l1_key l2_key = record {
  version = 1;
  flags = flags;
  l0 = 361;
  l1 = l1;
  l2 = l2;
  root_key_identifier = root_id;
  kdf_algorithm = text "SP800_108_CTR_HMAC";
  kdf_parameters = sha512_parameters;
  secret_algorithm = text "DH";
  secret_parameters = [];
  private_key_length = 512;
  public_key_length = 2048;
  domain_name = text "domain.test";
  forest_name = text "domain.test";
  l1_key = l1_key;
  l2_key = l2_key;
}

abbrev pub l1_key_of : ℕ → Bytes
l1_key_of n = l1_key_at test_kdfs sha512 root_id 361 seed n

abbrev pub l2_key_of : ℕ → ℕ → Bytes
l2_key_of n m = l2_key_at test_kdfs sha512 root_id 361 seed n m

-- What a domain controller returns for (361, 20, 7).
abbrev pub group_envelope : GroupKeyEnvelope
group_envelope = envelope_at 2 20 7 (l1_key_of 12) (l2_key_of 11 24)

pub group_envelope-IsGenuine : IsGenuine test_kdfs sha512 seed group_envelope
group_envelope-IsGenuine = record {
  l0_range = omega arith;
  l1_range = omega arith;
  l2_range = omega arith;
  l1_full = λ e. absurd (omega arith);
  l1_below = λ h h'. refl;
  l2_full = λ h. refl;
}

-- An envelope of the same group at (361, 19, 3), with the level 2 key that was computed for it.
abbrev pub secret_envelope : GroupKeyEnvelope
secret_envelope = envelope_at 2 19 3 [] (l2_key_of 12 28)

-- One that has the group's public key instead, in the group of 5 modulo 23.
abbrev pub public_envelope : GroupKeyEnvelope
public_envelope =
    envelope_at 3 19 3 [] (0x44 ∷ 0x48 ∷ 0x50 ∷ 0x42 ∷ 1 ∷ 0 ∷ 0 ∷ 0 ∷ 23 ∷ 5 ∷ 14 ∷ [])

abbrev pub test_urandom : ℕ → Bytes
test_urandom n = 0 ∷ 9 ∷ []
