-- ===== src/Client/Protect/Offline.antt =====
-- ncrypt_protect_secret followed by ncrypt_unprotect_secret of src/dpapi_ng/_client.py with one
-- cache, which holds what both need.
use dpapi_ng.Base.{
  ℕ, ◌-◌, ◌^◌, ◌<◌, ◌≤◌, ◌≡◌, refl, sym, ap₂, ◌∙◌, arith, false, Option, some, ok, ◌>>=◌,
}
use dpapi_ng.Bytes.{Bytes}
use dpapi_ng.Bytes.Text.{Text, text}
use dpapi_ng.Bytes.Uuid.{Uuid}
use dpapi_ng.Crypto.{Kdfs}
use dpapi_ng.Crypto.Content.{Ciphers, CekRandom}
use dpapi_ng.Crypto.Content.Laws.{IsLawful}
use dpapi_ng.Gkdi.Envelope.{GroupKeyEnvelope, is_public_key}
use dpapi_ng.Gkdi.Derive.Chain.{Covers, l2_key_at}
use dpapi_ng.Gkdi.Kek.{Curves, new_identifier}
use dpapi_ng.Gkdi.Kek.Length.{DerivesLength}
use dpapi_ng.Gkdi.Kek.Recover.{SameKey, group_key}
use dpapi_ng.Blob.DpapingBlob.{DpapingBlob, unpack, target_sd}
use dpapi_ng.Client.KeyCache.{KeyCache, get_key, store_key}
use dpapi_ng.Client.KeyCache.Genuine.{Domain, Fits, IsGenuineCache}
use dpapi_ng.Client.KeyCache.Serve.{Current, get_key_serves, Fits-key}
use dpapi_ng.Client.KeyCache.Leaves.{get_key-leaves, get_key-store_covered}
use dpapi_ng.Client.Clock.{
  filetime, l0_index, l1_index, l2_index, level2_envelope, protection_envelope, protection_gke_at,
  get_protection_gke_from_cache,
}
use dpapi_ng.Client.Clock.Indices.{l1_index-l2_index, l0_index-bound}
use dpapi_ng.Client.Secret.{encrypt_blob, decrypt_blob}
use dpapi_ng.Client.Secret.RoundTrip.{IsRandom, IsStorable, decrypt-encrypt_parts}
use dpapi_ng.Client.Protect.{
  Network, or_fetch, store_and_use, unprotect_blob, protect_with, ncrypt_unprotect_secret,
  ncrypt_protect_secret,
}

module _ (c : Kdfs) (d : Domain) (id : Uuid) (sd : Bytes) (l0 l1 l2 : ℕ) (cache : KeyCache)
    (rk : GroupKeyEnvelope) (f : Fits c d id sd l0 rk) (covers : Covers rk.l1 rk.l2 l1 l2)
    (h2 : l2 ≤ 31) where
  abbrev enc : GroupKeyEnvelope
  enc =
      level2_envelope id l0 l1 l2 rk
        (l2_key_at c (d.algorithm id) id l0 (d.seed id sd l0) (31 - l1) (31 - l2))

  protection_envelope_lem : protection_envelope c id l0 l1 l2 (some rk) ≡ ok (some enc)
  unfolding protection_envelope
  protection_envelope_lem = rw (f.named, Fits-key c d id sd l0 l1 l2 rk f covers h2)

  enc-SameKey :
      is_public_key rk ≡ false
      → rk.kdf_algorithm ≡ text "SP800_108_CTR_HMAC"
      → SameKey c (d.algorithm id) (d.seed id sd l0) enc rk
  unfolding level2_envelope
  enc-SameKey seed known = record {
    l0 = f.l0_same;
    l2 = h2;
    covers = covers;
    genuine = f.genuine;
    seed = seed;
    enc_kdf = known;
    dec_kdf = known;
    enc_hash = f.named;
    dec_hash = f.named;
  }

  enc_held : (ec : Curves) → enc.l2_key ≡ group_key c ec (d.algorithm id) (d.seed id sd l0) enc rk
  unfolding group_key level2_envelope
  enc_held ec =
      ap₂ (λ i n. l2_key_at c (d.algorithm id) i n (d.seed id sd l0) (31 - l1) (31 - l2))
        (sym f.id_same) (sym f.l0_same)

module _ (c : Kdfs) (d : Domain) (time_ns : ℕ) (id : Uuid) (sd : Bytes) (cache : KeyCache)
    (rk : GroupKeyEnvelope) where
  abbrev l0 : ℕ
  l0 = l0_index (filetime time_ns)

  abbrev l1 : ℕ
  l1 = l1_index (filetime time_ns)

  abbrev l2 : ℕ
  l2 = l2_index (filetime time_ns)

  abbrev pub now_enc : GroupKeyEnvelope
  now_enc =
      level2_envelope id l0 l1 l2 rk
        (l2_key_at c (d.algorithm id) id l0 (d.seed id sd l0) (31 - l1) (31 - l2))

  -- The cache is the domain's and serves the group key of the current time.
  pub record IsServed : Type 0 where
    pub genuine : IsGenuineCache c d cache
    pub time : filetime time_ns < 2 ^ 64
    pub current : Current c d cache id sd l0 l1 l2
    pub found : (get_key c sd id l0 l1 l2 cache).1 ≡ ok (some rk)
    pub secret : is_public_key rk ≡ false
    pub known : rk.kdf_algorithm ≡ text "SP800_108_CTR_HMAC"

module _ (c : Kdfs) (ec : Curves) (ci : Ciphers) (derives : DerivesLength c) (law : IsLawful ci)
    (random : CekRandom) (is_random : IsRandom random) (urandom : ℕ → Bytes) (digit : ℕ → Option ℕ)
    (net : Network) (d : Domain) where
  protect_lem :
      (time_ns : ℕ) (root_id : Option Uuid) (sd value : Bytes) (pd : Text)
      (server domain_name : Option Text) (cache : KeyCache) (env : GroupKeyEnvelope)
      → target_sd digit pd ≡ ok sd
      → (get_protection_gke_from_cache c time_ns root_id sd cache).1 ≡ ok (some env)
      → is_public_key env ≡ false
      → ncrypt_protect_secret c ec ci digit net random urandom time_ns value pd root_id server
          domain_name
          (some cache)
        ≡ (
          store_key sd env (get_protection_gke_from_cache c time_ns root_id sd cache).0,
          encrypt_blob c ec ci random urandom value env sd pd,
        )
  unfolding ncrypt_protect_secret protect_with store_and_use or_fetch
  protect_lem time_ns root_id sd value pd server domain_name cache env sd_ok found secret =
      rw (ncrypt_protect_secret, sd_ok, found, secret)

  unprotect_lem :
      (octets : Bytes) (server : Option Text) (cache : KeyCache) (blob : DpapingBlob)
      (rk : GroupKeyEnvelope)
      → unpack digit octets ≡ ok blob
      → (get_key c blob.security_descriptor blob.key_identifier.root_key_identifier
          blob.key_identifier.l0 blob.key_identifier.l1 blob.key_identifier.l2 cache).1
        ≡ ok (some rk)
      → (ncrypt_unprotect_secret c ec ci digit net octets server (some cache)).1
        ≡ decrypt_blob c ec ci blob rk
  unfolding ncrypt_unprotect_secret unprotect_blob store_and_use or_fetch
  unprotect_lem octets server cache blob rk read found = rw (ncrypt_unprotect_secret, read, found)

  module _ (time_ns : ℕ) (id : Uuid) (sd value : Bytes) (pd : Text) (cache : KeyCache)
      (rk : GroupKeyEnvelope) where
    abbrev here : GroupKeyEnvelope
    here = now_enc c d time_ns id sd cache rk

    -- For a cache whose envelopes and root keys belong to one domain, a clock below 2 ^ 64
    -- ticks, a place of the current indices that is empty or holds a key at or above them, an
    -- envelope that _get_key returns for them, which is no public key and names the KDF; key
    -- derivation that gives keys of the asked length, ciphers that take back what they did,
    -- random bytes of the asked length; an encodable descriptor, which has the given security
    -- descriptor, and an identifier that fits, with less than 2 GiB together:
    -- ncrypt_protect_secret with the root key and the cache succeeds, and
    -- ncrypt_unprotect_secret of what it returns, with the cache that it leaves, gives the
    -- value back, whatever the servers are and the network does.
    pub unprotect-protect :
        (server domain_name server' : Option Text)
        → target_sd digit pd ≡ ok sd
        → IsServed c d time_ns id sd cache rk
        → IsStorable (new_identifier c ec here (urandom 32)) value pd
        → ((ncrypt_protect_secret c ec ci digit net random urandom time_ns value pd
              (some id)
              server
              domain_name
              (some cache)).1
            >>= λ octets.
                (ncrypt_unprotect_secret c ec ci digit net octets server' (
                  some
                    (ncrypt_protect_secret c ec ci digit net random urandom time_ns value pd
                      (some id)
                      server
                      domain_name
                      (some cache)).0)).1)
          ≡ ok value
    unfolding get_protection_gke_from_cache protection_gke_at level2_envelope is_public_key
        new_identifier
    unprotect-protect server domain_name server' sd_ok s storable =
        let l0 = l0_index (filetime time_ns) in
        let l1 = l1_index (filetime time_ns) in
        let l2 = l2_index (filetime time_ns) in
        let (_, _, h1, h2) = l1_index-l2_index (filetime time_ns) in
        let h0 : l0 < 2 ^ 31 = omega (arith, l0_index-bound (filetime time_ns), s.time) in
        let (f, covers) =
          get_key_serves c d id sd l0 l1 l2 cache rk s.genuine h0 h1 h2 s.current s.found in
        let secret : is_public_key here ≡ false = s.secret in
        let found : (get_protection_gke_from_cache c time_ns (some id) sd cache).1
            ≡ ok (some here) =
          rw s.found (protection_envelope_lem c d id sd l0 l1 l2 cache rk f covers h2) in
        let same = enc-SameKey c d id sd l0 l1 l2 cache rk f covers h2 s.secret s.known in
        let (octets, blob, made, read, at_id, at_sd, decrypted) =
          decrypt-encrypt_parts c ec ci derives law random is_random urandom (d.algorithm id)
            (d.seed id sd l0) here rk same digit value sd pd sd_ok secret
            (enc_held c d id sd l0 l1 l2 cache rk f covers h2 ec) storable in
        let left = get_key-leaves c id sd l0 l1 l2 cache rk s.found in
        let served =
          get_key-store_covered c id sd l0 (get_key c sd id l0 l1 l2 cache).0 here rk left refl refl
            covers in
        rw
          (
            protect_lem time_ns (some id) sd value pd server domain_name cache here sd_ok found
                secret,
            made,
          )
          (unprotect_lem octets server' _ blob rk read (rw (at_id, at_sd) served) ∙ decrypted)
