-- ===== src/Tests/Derive.antt =====
-- The key hierarchy and the key encryption keys at concrete inputs.
use dpapi_ng.Base.{◌≡◌, refl, arith, inl, inr, true, false, [], ◌∷◌, ok, err, overflow_error}
use dpapi_ng.Base.{◌⊎◌}
use dpapi_ng.Bytes.{Bytes, to_bytes, to_bytes_be, from_le, from_be}
use dpapi_ng.Gkdi.PublicKey.Ffcdh.{pack_key}
use dpapi_ng.Gkdi.Kek.Agreement.{IsGroup, public_of}
use dpapi_ng.Gkdi.Derive.Chain.{l1_key_at, l2_key_at}
use dpapi_ng.Gkdi.Context.{context}
use dpapi_ng.Crypto.{kdf}
use dpapi_ng.Bytes.Text.{text}
use dpapi_ng.Blob.KeyIdentifier.{KeyIdentifier}
use dpapi_ng.Crypto.{sha512}
use dpapi_ng.Gkdi.Envelope.{is_public_key}
use dpapi_ng.Gkdi.Derive.{compute_l2_key}
use dpapi_ng.Gkdi.Derive.Correct.{compute_l2_key-chain}
use dpapi_ng.Gkdi.Derive.Total.{compute_l2_key_total, compute_l2_key-overflow}
use dpapi_ng.Gkdi.Kek.{compute_kek, compute_public_key, get_kek, new_kek}
use dpapi_ng.Gkdi.Kek.Agreement.{compute_kek-agree}
use dpapi_ng.Gkdi.Kek.Recover.{
  SameKey, group_key, group_private_key, get_kek-new_kek_secret, get_kek-new_kek_public,
}
use dpapi_ng.Tests.Data.{
  test_kdfs, test_curves, seed, l2_key_of, group_envelope, group_envelope-IsGenuine, sha512_named,
  secret_envelope, public_envelope, test_urandom,
}

compute_l2_key-chain_example :
    compute_l2_key test_kdfs sha512 group_envelope 19 3 ≡ ok (l2_key_of 12 28)
compute_l2_key-chain_example =
    compute_l2_key-chain test_kdfs sha512 seed group_envelope 19 3 group_envelope-IsGenuine
      (inl (omega arith)) (omega arith)

compute_l2_key_total_example :
    ((key : Bytes) × (compute_l2_key test_kdfs sha512 group_envelope 19 3 ≡ ok key))
    ⊎ (compute_l2_key test_kdfs sha512 group_envelope 19 3 ≡ err overflow_error)
compute_l2_key_total_example = compute_l2_key_total test_kdfs sha512 group_envelope 19 3

compute_l2_key-overflow_example :
    compute_l2_key test_kdfs sha512 group_envelope 20 8 ≡ err overflow_error
compute_l2_key-overflow_example =
    compute_l2_key-overflow test_kdfs sha512 group_envelope 20 8 (inr (refl, omega arith))

secret_same : SameKey test_kdfs sha512 seed secret_envelope group_envelope
unfolding is_public_key
secret_same = record {
  l0 = refl;
  l2 = omega arith;
  covers = inl (omega arith);
  genuine = group_envelope-IsGenuine;
  seed = refl;
  enc_kdf = refl;
  dec_kdf = refl;
  enc_hash = sha512_named;
  dec_hash = sha512_named;
}

public_same : SameKey test_kdfs sha512 seed public_envelope group_envelope
unfolding is_public_key
public_same = record {
  l0 = refl;
  l2 = omega arith;
  covers = inl (omega arith);
  genuine = group_envelope-IsGenuine;
  seed = refl;
  enc_kdf = refl;
  dec_kdf = refl;
  enc_hash = sha512_named;
  dec_hash = sha512_named;
}

secret_flag : is_public_key secret_envelope ≡ false
unfolding is_public_key
secret_flag = refl

secret_held :
    secret_envelope.l2_key
    ≡ group_key test_kdfs test_curves sha512 seed secret_envelope group_envelope
unfolding group_key
secret_held = refl

public_flag : is_public_key public_envelope ≡ true
unfolding is_public_key
public_flag = refl

public_held :
    pack_key (
      public_of 1 23 5
        (group_private_key test_kdfs test_curves sha512 seed public_envelope group_envelope))
    ≡ ok public_envelope.l2_key
unfolding pack_key to_bytes to_bytes_be from_be from_le group_private_key group_key kdf l2_key_at
    l1_key_at context
public_held = refl

small-IsGroup : IsGroup 1 23 5
small-IsGroup = record {
  key_length = omega arith;
  positive = omega arith;
  field_order = omega arith;
  generator = omega arith;
}

get_kek-new_kek_secret_example :
    (kek : Bytes) × (key_id : KeyIdentifier) × (new_kek test_kdfs test_curves test_urandom
        secret_envelope
      ≡ ok (kek, key_id))
    × (get_kek test_kdfs test_curves group_envelope key_id ≡ ok kek)
get_kek-new_kek_secret_example =
    get_kek-new_kek_secret test_kdfs test_curves sha512 seed secret_envelope group_envelope
      secret_same test_urandom secret_flag secret_held

get_kek-new_kek_public_example :
    (kek : Bytes) × (key_id : KeyIdentifier) × (new_kek test_kdfs test_curves test_urandom
        public_envelope
      ≡ ok (kek, key_id))
    × (get_kek test_kdfs test_curves group_envelope key_id ≡ ok kek)
get_kek-new_kek_public_example =
    get_kek-new_kek_public test_kdfs test_curves sha512 seed public_envelope group_envelope
      public_same 1 23 5 test_urandom small-IsGroup public_flag refl refl public_held

packed_public :
    pack_key (public_of 1 23 5 (6 ∷ []))
    ≡ ok (0x44 ∷ 0x48 ∷ 0x50 ∷ 0x42 ∷ 1 ∷ 0 ∷ 0 ∷ 0 ∷ 23 ∷ 5 ∷ 8 ∷ [])
unfolding pack_key to_bytes to_bytes_be from_be from_le
packed_public = refl

compute_kek-agree_example :
    (kek : Bytes) × (packed_r : Bytes) × (compute_public_key test_kdfs test_curves
        (text "DH")
        (15 ∷ [])
        (0x44 ∷ 0x48 ∷ 0x50 ∷ 0x42 ∷ 1 ∷ 0 ∷ 0 ∷ 0 ∷ 23 ∷ 5 ∷ 8 ∷ [])
      ≡ ok packed_r)
    × (compute_kek test_kdfs test_curves sha512
          (text "DH")
          (15 ∷ [])
          (0x44 ∷ 0x48 ∷ 0x50 ∷ 0x42 ∷ 1 ∷ 0 ∷ 0 ∷ 0 ∷ 23 ∷ 5 ∷ 8 ∷ [])
        ≡ ok kek)
    × (compute_kek test_kdfs test_curves sha512 (text "DH") (6 ∷ []) packed_r ≡ ok kek)
compute_kek-agree_example =
    compute_kek-agree 1 23 5 small-IsGroup test_kdfs test_curves sha512 (6 ∷ []) (15 ∷ [])
      (0x44 ∷ 0x48 ∷ 0x50 ∷ 0x42 ∷ 1 ∷ 0 ∷ 0 ∷ 0 ∷ 23 ∷ 5 ∷ 8 ∷ []) packed_public
