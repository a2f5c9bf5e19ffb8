-- ===== src/Client/KeyCache/LoadKey/Serve.antt =====
-- KeyCache.load_key of src/dpapi_ng/_client.py followed by _get_key.
use dpapi_ng.Bytes.Text.{text}
use dpapi_ng.Base.{
  ℕ, ◌-◌, ◌^◌, ◌<◌, ◌≤◌, ◌≡◌, arith, inl, inr, Bool-cases, ◌&&◌, Option, none, some, List, ◌++◌,
  bytes_eq, [], ◌∷◌, refl, ok, ◌>>=◌, >>=-eq-ok, insert, lookup, lookup-insert, pos,
}
use dpapi_ng.Bytes.{Bytes}
use dpapi_ng.Bytes.Uuid.{Uuid, uuid_eq, uuid_beq_refl}
use dpapi_ng.Bytes.{from_le, to_bytes}
use dpapi_ng.Bytes.Text.{encode_utf16, decode_utf16}
use dpapi_ng.Gkdi.KdfParameters as Kdf
use dpapi_ng.Crypto.{sha512, HashAlgorithm, Kdfs, kdf}
use dpapi_ng.Gkdi.Envelope.{GroupKeyEnvelope}
use dpapi_ng.Gkdi.KdfParameters.{named_algorithm}
use dpapi_ng.Gkdi.Context.{kds_service_label, context, compute_kdf_context-ok}
use dpapi_ng.Gkdi.Derive.{minus_one, compute_l1_key, compute_l2_key}
use dpapi_ng.Gkdi.Derive.Chain.{l2_key_at}
use dpapi_ng.Gkdi.PublicKey.Ffcdh.{
  FitsParameters, pack_parameters, unpack_parameters, unpack-pack_parameters,
}
use dpapi_ng.Client.KeyCache.{RootKey, KeyCache, enter, root_envelope, get_key}
use dpapi_ng.Client.KeyCache.View.{cached, cached-enter, get_key-root}
use dpapi_ng.Client.KeyCache.Genuine.{Domain, FitsRoot, root_envelope-Fits, from_root-Fits}
use dpapi_ng.Client.KeyCache.Serve.{none-usable, root_envelope-Covers, Fits-key}
use dpapi_ng.Client.KeyCache.LoadKey.{
  default_kdf, default_parameters, is_missing, kdf_parameters_of, secret_parameters_of, LoadKey,
  root_key_of, load_key,
}

-- The level 1 key at index 31 of MS-GKDI 3.1.4.1.2.
unfoldable pub l1_seed_at : Kdfs → HashAlgorithm → Bytes → Uuid → ℕ → Bytes → Bytes
l1_seed_at c algorithm target_sd root_key_id l0 root_key =
    let l0_seed =
      kdf c algorithm root_key kds_service_label (context root_key_id (pos l0) minus_one minus_one)
        64 in
    kdf c algorithm l0_seed kds_service_label
      (context root_key_id (pos l0) (pos 31) minus_one ++ target_sd) 64

compute_l1_key-ok :
    (c : Kdfs) (algorithm : HashAlgorithm) (sd : Bytes) (id : Uuid) (l0 : ℕ) (key : Bytes)
    → l0 < 2 ^ 31
    → compute_l1_key c sd id l0 key algorithm ≡ ok (l1_seed_at c algorithm sd id l0 key)
unfolding compute_l1_key l1_seed_at
compute_l1_key-ok c algorithm sd id l0 key h = rw (
  compute_kdf_context-ok id (pos l0) minus_one minus_one h (omega arith) (omega arith),
  compute_kdf_context-ok id (pos l0) (pos 31) minus_one h (omega arith) (omega arith),
)

default-fits : FitsParameters default_parameters
default-fits = record { total = omega arith; field_order = omega arith; generator = omega arith }

-- The hash that the KDF parameters of load_key stand for: SHA512 where there are none.
abbrev pub NamesHash : Option Bytes → HashAlgorithm → Type 0
NamesHash none algorithm = algorithm ≡ sha512
NamesHash (some []) algorithm = algorithm ≡ sha512
NamesHash (some (b ∷ bs)) algorithm = named_algorithm (b ∷ bs) ≡ ok algorithm

default_hash : (Kdf.pack default_kdf >>= named_algorithm) ≡ ok sha512
unfolding Kdf.pack encode_utf16 to_bytes named_algorithm Kdf.unpack Kdf.hash_algorithm from_le
    decode_utf16
default_hash = refl

kdf_parameters-NamesHash :
    (given : Option Bytes) (algorithm : HashAlgorithm)
    → NamesHash given algorithm
    → (kdf_parameters_of given >>= named_algorithm) ≡ ok algorithm
unfolding kdf_parameters_of
kdf_parameters-NamesHash none algorithm h = rw h default_hash
kdf_parameters-NamesHash (some []) algorithm h = rw h default_hash
kdf_parameters-NamesHash (some (b ∷ bs)) algorithm h = h

secret_parameters-total :
    (secret_algorithm : List ℕ) (given : Option Bytes)
    → (parameters : Option Bytes) × (secret_parameters_of secret_algorithm given ≡ ok parameters)
unfolding secret_parameters_of
secret_parameters-total secret_algorithm given =
    elim (Bool-cases (bytes_eq secret_algorithm (text "DH") && is_missing given)) [
      | inl missing ↦
          let (packed, e, _) =
            >>=-eq-ok (pack_parameters default_parameters) unpack_parameters
              (unpack-pack_parameters default_parameters default-fits) in
          (some packed, rw (missing, e))
      | inr present ↦ (given, rw present)
    ]

module _ (c : Kdfs) (algorithm : HashAlgorithm) (a : LoadKey) where
  -- The domain of the loaded key.
  abbrev loaded_domain : Domain
  loaded_domain = record {
    algorithm = λ id. algorithm;
    seed = λ id sd l0. l1_seed_at c algorithm sd id l0 a.key;
  }

  loaded-FitsRoot :
      (id : Uuid) (kdf_parameters : Bytes) (secret_parameters : Option Bytes)
      → named_algorithm kdf_parameters ≡ ok algorithm
      → FitsRoot c loaded_domain id (root_key_of a kdf_parameters secret_parameters)
  loaded-FitsRoot id kdf_parameters secret_parameters named = record {
    named = named;
    seeds = λ sd l0 h. compute_l1_key-ok c algorithm sd id l0 a.key h;
  }

  served :
      (id : Uuid) (sd : Bytes) (l0 l1 l2 : ℕ) (cache : KeyCache) (root_key : RootKey)
      → FitsRoot c loaded_domain id root_key
      → l0 < 2 ^ 31
      → cached cache id sd l0 ≡ none
      → lookup id cache.root_keys ≡ some root_key
      → (get_key c sd id l0 l1 l2 cache).1
        ≡ ok (some (root_envelope root_key id l0 (l1_seed_at c algorithm sd id l0 a.key)))
  served id sd l0 l1 l2 cache root_key fits h missing found = rw (
    get_key-root c id sd l0 l1 l2 cache (none-usable c loaded_domain _ l1 l2 missing),
    found,
    from_root-Fits c loaded_domain id sd l0 root_key (enter id sd cache).0 fits h,
    cached-enter id id sd sd l0 cache,
    missing,
  )

  loaded :
      (id : Uuid) (kdf_parameters : Bytes) (secret_parameters : Option Bytes) (cache : KeyCache)
      → kdf_parameters_of a.kdf_parameters ≡ ok kdf_parameters
      → secret_parameters_of a.secret_algorithm a.secret_parameters ≡ ok secret_parameters
      → load_key id a cache
        ≡ ok (record cache {
          root_keys = insert id (root_key_of a kdf_parameters secret_parameters) cache.root_keys;
        })
  unfolding load_key
  loaded id kdf_parameters secret_parameters cache e f = rw (e, f)

  -- For arguments whose KDF parameters name a hash algorithm, which is SHA512 where there are
  -- no parameters or empty ones, an L0 index below 2 ^ 31, L1 and L2 indices of 31 at most, and
  -- a place that is empty in the cache: load_key succeeds, _get_key on the cache that it leaves
  -- returns an envelope, and compute_l2_key on that returns the level 2 key at the requested
  -- indices in the hierarchy that MS-GKDI derives from the root key.
  pub get_key-load_key :
      (id : Uuid) (sd : Bytes) (l0 l1 l2 : ℕ) (cache : KeyCache)
      → NamesHash a.kdf_parameters algorithm
      → l0 < 2 ^ 31
      → l1 ≤ 31
      → l2 ≤ 31
      → cached cache id sd l0 ≡ none
      → (cache' : KeyCache) × (rk : GroupKeyEnvelope) × (load_key id a cache ≡ ok cache')
        × ((get_key c sd id l0 l1 l2 cache').1 ≡ ok (some rk))
        × (compute_l2_key c algorithm rk l1 l2
            ≡ ok (
                l2_key_at c algorithm id l0
                  (l1_seed_at c algorithm sd id l0 a.key)
                  (31 - l1)
                  (31 - l2)))
  unfolding cached
  get_key-load_key id sd l0 l1 l2 cache e h0 h1 h2 missing =
      let (kp, ek, named) =
        >>=-eq-ok (kdf_parameters_of a.kdf_parameters) named_algorithm
          (kdf_parameters-NamesHash a.kdf_parameters algorithm e) in
      let (sp, es) = secret_parameters-total a.secret_algorithm a.secret_parameters in
      let root_key = root_key_of a kp sp in
      let cache' : KeyCache = record cache { root_keys = insert id root_key cache.root_keys } in
      let fits = loaded-FitsRoot id kp sp named in
      let seed = l1_seed_at c algorithm sd id l0 a.key in
      let found : lookup id cache'.root_keys ≡ some root_key =
        rw (lookup-insert id id root_key cache.root_keys, uuid_beq_refl id) in
      (
        cache',
        root_envelope root_key id l0 seed,
        loaded id kp sp cache ek es,
        served id sd l0 l1 l2 cache' root_key fits h0 missing found,
        Fits-key c loaded_domain id sd l0 l1 l2 _
            (root_envelope-Fits c loaded_domain id sd l0 root_key fits h0)
            (root_envelope-Covers c loaded_domain root_key id l0 l1 l2 seed h1 h2) h2,
      )
