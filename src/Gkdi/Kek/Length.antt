-- ===== src/Gkdi/Kek/Length.antt =====
-- GroupKeyEnvelope.new_kek of src/dpapi_ng/_gkdi.py: the key has 32 bytes.
use dpapi_ng.Base.{
  ℕ, ◌≡◌, subst, Bool, true, false, inl, inr, Bool-cases, bytes_eq, Result, ok, ◌>>=◌, >>=-eq-ok,
  length, if◌then◌else◌,
}
use dpapi_ng.Bytes.{Bytes}
use dpapi_ng.Bytes.Text.{Text, text}
use dpapi_ng.Blob.KeyIdentifier.{KeyIdentifier}
use dpapi_ng.Crypto.{HashAlgorithm, Kdfs, KbkdfConfig, kdf}
use dpapi_ng.Gkdi.Envelope.{GroupKeyEnvelope, is_public_key}
use dpapi_ng.Gkdi.KdfParameters.{named_algorithm}
use dpapi_ng.Gkdi.Kek.{
  Curves, agreed_secret, secret_kek, compute_kek, compute_public_key, new_public_kek,
  new_secret_kek, new_identifier, new_kek, bits_to_bytes,
}

-- KBKDFHMAC derives a key of the length that it is asked for.
abbrev pub DerivesLength : Kdfs → Type 0
DerivesLength c =
    (config : KbkdfConfig) (secret : Bytes) → length (c.kbkdf config secret) ≡ config.length

module _ (c : Kdfs) (ec : Curves) (law : DerivesLength c) where
  kdf_length :
      (h : HashAlgorithm) (secret label context : Bytes) (n : ℕ)
      → length (kdf c h secret label context n) ≡ n
  unfolding kdf
  kdf_length h secret label context n = law _ secret

  secret_kek_length :
      (h : HashAlgorithm) (shared : Bytes × HashAlgorithm) → length (secret_kek c ec h shared) ≡ 32
  unfolding secret_kek
  secret_kek_length h (shared, inner) = kdf_length h _ _ _ 32

  compute_kek_length :
      (h : HashAlgorithm) (name : Text) (private_key public_key kek : Bytes)
      → compute_kek c ec h name private_key public_key ≡ ok kek
      → length kek ≡ 32
  unfolding compute_kek
  compute_kek_length h name private_key public_key kek e =
      let (shared, _, same) = >>=-eq-ok (agreed_secret c ec name private_key public_key) _ e in
      let eq : secret_kek c ec h shared ≡ kek = cc in
      subst (λ k. length k ≡ 32) eq (secret_kek_length h shared)

  new_public_kek_length :
      (urandom : ℕ → Bytes) (rk : GroupKeyEnvelope) (h : HashAlgorithm) (kek key_info : Bytes)
      → new_public_kek c ec urandom rk h ≡ ok (kek, key_info)
      → length kek ≡ 32
  unfolding new_public_kek
  new_public_kek_length urandom rk h kek key_info e =
      let (kek', made, e') =
        >>=-eq-ok
          (compute_kek c ec h rk.secret_algorithm (urandom (bits_to_bytes rk.private_key_length))
            rk.l2_key)
          _ e in
      let (key_info', _, e'') =
        >>=-eq-ok
          (compute_public_key c ec rk.secret_algorithm
            (urandom (bits_to_bytes rk.private_key_length)) rk.l2_key)
          _ e' in
      let eq : kek' ≡ kek = cc in
      subst (λ k. length k ≡ 32) eq (compute_kek_length h _ _ _ kek' made)

  new_secret_kek_length :
      (urandom : ℕ → Bytes) (rk : GroupKeyEnvelope) (h : HashAlgorithm)
      → length (new_secret_kek c ec urandom rk h).0 ≡ 32
  unfolding new_secret_kek
  new_secret_kek_length urandom rk h = kdf_length h _ _ _ 32

  either_kek_length :
      (urandom : ℕ → Bytes) (rk : GroupKeyEnvelope) (h : HashAlgorithm) (public : Bool)
      (kek key_info : Bytes)
      → (if public then new_public_kek c ec urandom rk h else ok (new_secret_kek c ec urandom rk h))
        ≡ ok (kek, key_info)
      → length kek ≡ 32
  either_kek_length urandom rk h true kek key_info e =
      new_public_kek_length urandom rk h kek key_info e
  either_kek_length urandom rk h false kek key_info e =
      let eq : (new_secret_kek c ec urandom rk h).0 ≡ kek = cc in
      subst (λ k. length k ≡ 32) eq (new_secret_kek_length urandom rk h)

  -- new_kek with the hash at hand.
  abbrev after_hash :
      (ℕ → Bytes) → GroupKeyEnvelope → HashAlgorithm → Result (Bytes × KeyIdentifier)
  after_hash urandom rk h = do
    (kek, key_info) ←
        (if is_public_key rk
          then new_public_kek c ec urandom rk h
          else ok (new_secret_kek c ec urandom rk h))
    ok (kek, new_identifier c ec rk key_info)

  after_hash_length :
      (urandom : ℕ → Bytes) (rk : GroupKeyEnvelope) (kek : Bytes) (key_id : KeyIdentifier)
      → (named_algorithm rk.kdf_parameters >>= after_hash urandom rk) ≡ ok (kek, key_id)
      → length kek ≡ 32
  after_hash_length urandom rk kek key_id e =
      let (h, _, e') = >>=-eq-ok (named_algorithm rk.kdf_parameters) (after_hash urandom rk) e in
      let (made, found, e'') =
        >>=-eq-ok
          (if is_public_key rk
            then new_public_kek c ec urandom rk h
            else ok (new_secret_kek c ec urandom rk h))
          _ e' in
      let eq : made.0 ≡ kek = cc in
      subst (λ k. length k ≡ 32) eq
        (either_kek_length urandom rk h (is_public_key rk) made.0 made.1 found)

  pub length-new_kek :
      (urandom : ℕ → Bytes) (rk : GroupKeyEnvelope) (kek : Bytes) (key_id : KeyIdentifier)
      → new_kek c ec urandom rk ≡ ok (kek, key_id)
      → length kek ≡ 32
  unfolding new_kek
  length-new_kek urandom rk kek key_id e =
      elim (Bool-cases (bytes_eq rk.kdf_algorithm (text "SP800_108_CTR_HMAC"))) [
        | inl known ↦ after_hash_length urandom rk kek key_id (rw known at e)
        | inr unknown ↦ let e' = rw unknown at e in cc
      ]
