-- ===== src/Gkdi/Kek/Recover.antt =====
-- GroupKeyEnvelope.new_kek of src/dpapi_ng/_gkdi.py followed by get_kek.
use dpapi_ng.Base.{
  ℕ, ◌-◌, ◌≤◌, ◌≡◌, sym, subst, ap, ◌∙◌, true, false, ◌==◌, ==_refl, ok, bytes_eq, ◌++◌, [], ◌∷◌,
}
use dpapi_ng.Bytes.{Bytes}
use dpapi_ng.Bytes.Text.{text, encode_utf16, utf16_bytes}
use dpapi_ng.Blob.KeyIdentifier.{KeyIdentifier}
use dpapi_ng.Blob.KeyIdentifier as Identifier
use dpapi_ng.Crypto.{HashAlgorithm, Kdfs, kdf}
use dpapi_ng.Gkdi.Envelope.{GroupKeyEnvelope, is_public_key}
use dpapi_ng.Gkdi.KdfParameters.{named_algorithm}
use dpapi_ng.Gkdi.Context.{kds_service_label}
use dpapi_ng.Gkdi.Derive.Chain.{IsGenuine, Covers, l2_key_at}
use dpapi_ng.Gkdi.Derive.Correct.{compute_l2_key-chain}
use dpapi_ng.Gkdi.PublicKey.Ffcdh.{pack_key}
use dpapi_ng.Gkdi.Kek.{
  Curves, bits_to_bytes, compute_kek, compute_kek_from_public_key, compute_public_key,
  kek_of_l2_key, get_kek, new_public_kek, new_secret_kek, new_identifier, new_kek,
}
use dpapi_ng.Gkdi.Kek.Agreement.{IsGroup, public_of, compute_kek-agree}

-- The envelope that protects and the one that recovers belong to one group key: the second one
-- holds the keys of the hierarchy and covers the indices of the first one.
pub record SameKey (c : Kdfs) (algorithm : HashAlgorithm) (l1_seed : Bytes)
    (enc dec : GroupKeyEnvelope) : Type 0 where
  pub l0 : dec.l0 ≡ enc.l0
  pub l2 : enc.l2 ≤ 31
  pub covers : Covers dec.l1 dec.l2 enc.l1 enc.l2
  pub genuine : IsGenuine c algorithm l1_seed dec
  pub seed : is_public_key dec ≡ false
  pub enc_kdf : enc.kdf_algorithm ≡ text "SP800_108_CTR_HMAC"
  pub dec_kdf : dec.kdf_algorithm ≡ text "SP800_108_CTR_HMAC"
  pub enc_hash : named_algorithm enc.kdf_parameters ≡ ok algorithm
  pub dec_hash : named_algorithm dec.kdf_parameters ≡ ok algorithm

module _ (c : Kdfs) (ec : Curves) (algorithm : HashAlgorithm) (l1_seed : Bytes)
    (enc dec : GroupKeyEnvelope) where
  -- The level 2 key of the protecting envelope's indices.
  unfoldable pub group_key : Bytes
  group_key =
      l2_key_at c algorithm dec.root_key_identifier dec.l0 l1_seed (31 - enc.l1) (31 - enc.l2)

  -- The private key that compute_kek_from_public_key derives of it for DH.
  unfoldable pub group_private_key : Bytes
  group_private_key =
      kdf c algorithm group_key kds_service_label (utf16_bytes (text "DH" ++ (0 ∷ [])))
        (bits_to_bytes dec.private_key_length)

  module _ (same : SameKey c algorithm l1_seed enc dec) where
    dec_known : bytes_eq dec.kdf_algorithm (text "SP800_108_CTR_HMAC") ≡ true
    dec_known = rw same.dec_kdf

    enc_known : bytes_eq enc.kdf_algorithm (text "SP800_108_CTR_HMAC") ≡ true
    enc_known = rw same.enc_kdf

    l0_known : (dec.l0 == enc.l0) ≡ true
    l0_known = rw same.l0 (==_refl enc.l0)

    get_kek-reduce :
        (key_info : Bytes)
        → get_kek c ec dec (new_identifier c ec enc key_info)
          ≡ kek_of_l2_key c ec dec (new_identifier c ec enc key_info) algorithm group_key
    unfolding get_kek group_key new_identifier
    get_kek-reduce key_info = rw (
      same.seed,
      dec_known,
      l0_known,
      same.dec_hash,
      compute_l2_key-chain c algorithm l1_seed dec enc.l1 enc.l2 same.genuine same.covers same.l2,
    )

    pub new_kek-secret :
        (urandom : ℕ → Bytes)
        → is_public_key enc ≡ false
        → new_kek c ec urandom enc
          ≡ ok (
            (new_secret_kek c ec urandom enc algorithm).0,
            new_identifier c ec enc (new_secret_kek c ec urandom enc algorithm).1,
          )
    unfolding new_kek
    new_kek-secret urandom secret = rw (enc_known, same.enc_hash, secret)

    new_kek-public :
        (urandom : ℕ → Bytes) (kek key_info : Bytes)
        → is_public_key enc ≡ true
        → new_public_kek c ec urandom enc algorithm ≡ ok (kek, key_info)
        → new_kek c ec urandom enc ≡ ok (kek, new_identifier c ec enc key_info)
    unfolding new_kek
    new_kek-public urandom kek key_info public e = rw (enc_known, same.enc_hash, public, e)

    new_public-ok :
        (urandom : ℕ → Bytes) (kek key_info : Bytes)
        → compute_kek c ec algorithm enc.secret_algorithm
            (urandom (bits_to_bytes enc.private_key_length))
            enc.l2_key
          ≡ ok kek
        → compute_public_key c ec enc.secret_algorithm
            (urandom (bits_to_bytes enc.private_key_length))
            enc.l2_key
          ≡ ok key_info
        → new_public_kek c ec urandom enc algorithm ≡ ok (kek, key_info)
    unfolding new_public_kek
    new_public-ok urandom kek key_info e f = rw (e, f)

    kek-secret :
        (key_info : Bytes)
        → is_public_key enc ≡ false
        → kek_of_l2_key c ec dec (new_identifier c ec enc key_info) algorithm group_key
          ≡ ok (kdf c algorithm group_key kds_service_label key_info 32)
    unfolding kek_of_l2_key new_identifier Identifier.is_public_key is_public_key
    kek-secret key_info secret = rw secret

    kek-public :
        (key_info : Bytes)
        → is_public_key enc ≡ true
        → dec.secret_algorithm ≡ text "DH"
        → kek_of_l2_key c ec dec (new_identifier c ec enc key_info) algorithm group_key
          ≡ compute_kek c ec algorithm (text "DH") group_private_key key_info
    unfolding kek_of_l2_key new_identifier Identifier.is_public_key is_public_key
        compute_kek_from_public_key encode_utf16 group_private_key
    kek-public key_info public dh = rw (public, dh)

    -- For two envelopes of one group key (the second has the keys of the hierarchy, is no
    -- public key and covers the indices of the first; both name the KDF and the same hash),
    -- where the first is no public key and holds the hierarchy's level 2 key of its indices:
    -- whatever bytes os.urandom gives, new_kek on the first succeeds, and get_kek of the
    -- second on the key identifier returns the same key.
    pub get_kek-new_kek_secret :
        (urandom : ℕ → Bytes)
        → is_public_key enc ≡ false
        → enc.l2_key ≡ group_key
        → (kek : Bytes) × (key_id : KeyIdentifier) × (new_kek c ec urandom enc ≡ ok (kek, key_id))
          × (get_kek c ec dec key_id ≡ ok kek)
    unfolding new_secret_kek
    get_kek-new_kek_secret urandom secret held = (
      kdf c algorithm enc.l2_key kds_service_label (urandom 32) 32,
      new_identifier c ec enc (urandom 32),
      new_kek-secret urandom secret,
      get_kek-reduce (urandom 32)
          ∙ kek-secret (urandom 32) secret
          ∙ ap (λ k. ok (kdf c algorithm k kds_service_label (urandom 32) 32)) (sym held),
    )

    -- For two envelopes of one group key (the second has the keys of the hierarchy, is no
    -- public key and covers the indices of the first; both name the KDF and the same hash),
    -- where the first holds the packed DH public key that belongs to the private key derived
    -- from the hierarchy's level 2 key, in a group whose numbers fit the key length: whatever
    -- bytes os.urandom gives, new_kek on the first succeeds, and get_kek of the second on the
    -- key identifier returns the same key.
    pub get_kek-new_kek_public :
        (n p g : ℕ) (urandom : ℕ → Bytes)
        → IsGroup n p g
        → is_public_key enc ≡ true
        → enc.secret_algorithm ≡ text "DH"
        → dec.secret_algorithm ≡ text "DH"
        → pack_key (public_of n p g group_private_key) ≡ ok enc.l2_key
        → (kek : Bytes) × (key_id : KeyIdentifier) × (new_kek c ec urandom enc ≡ ok (kek, key_id))
          × (get_kek c ec dec key_id ≡ ok kek)
    get_kek-new_kek_public n p g urandom group public enc_dh dec_dh held =
        let private_key = urandom (bits_to_bytes enc.private_key_length) in
        let (kek, key_info, mine, ours, theirs) =
          compute_kek-agree n p g group c ec algorithm group_private_key private_key enc.l2_key
            held in
        (
          kek,
          new_identifier c ec enc key_info,
          new_kek-public urandom kek key_info public (
              new_public-ok urandom kek key_info
                (subst (λ s. compute_kek c ec algorithm s private_key enc.l2_key ≡ ok kek)
                  (sym enc_dh) ours)
                (subst (λ s. compute_public_key c ec s private_key enc.l2_key ≡ ok key_info)
                  (sym enc_dh) mine)),
          get_kek-reduce key_info ∙ kek-public key_info public dec_dh ∙ theirs,
        )
