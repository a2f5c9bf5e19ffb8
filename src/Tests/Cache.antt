-- ===== src/Tests/Cache.antt =====
-- The key cache at concrete inputs.
use dpapi_ng.Base.{
  ◌≡◌, refl, arith, inr, true, false, none, some, [], ◌∷◌, if◌then◌else◌, lookup, insert,
  setdefault, nat_eq, bytes_eq_instance, ok, err, overflow_error,
}
use dpapi_ng.Bytes.{Bytes}
use dpapi_ng.Bytes.Uuid.{uuid_eq}
use dpapi_ng.Bytes.Text.{text, decode_utf16}
use dpapi_ng.Crypto.{sha512}
use dpapi_ng.Gkdi.Derive.{compute_l1_key, compute_l2_key}
use dpapi_ng.Gkdi.KdfParameters.{named_algorithm, unpack, hash_algorithm}
use dpapi_ng.Gkdi.Context.{compute_kdf_context}
use dpapi_ng.Bytes.{from_le, to_bytes_signed}
use dpapi_ng.Client.KeyCache.{
  RootKey, KeyCache, empty_cache, enter, write, is_usable, is_newer, root_seed, get_key, store_key,
}
use dpapi_ng.Client.KeyCache.LoadKey.{LoadKey, load_key}
use dpapi_ng.Client.KeyCache.LoadKey.Serve.{l1_seed_at, get_key-load_key}
use dpapi_ng.Gkdi.Derive.Chain.{l2_key_at}
use dpapi_ng.Base.{◌-◌}
use dpapi_ng.Client.KeyCache.View.{cached, cached-store_key}
use dpapi_ng.Client.KeyCache.Genuine.{Domain, Fits, IsGenuineCache}
use dpapi_ng.Client.KeyCache.Serve.{
  get_key-IsGenuineCache, store_key-IsGenuineCache, compute_l2_key-get_key,
}
use dpapi_ng.Client.KeyCache.Stale.{get_key-stale}
use dpapi_ng.Client.KeyCache.Order.{store_key_monotone, get_key-store_key}
use dpapi_ng.Gkdi.Envelope.{GroupKeyEnvelope}
use dpapi_ng.Tests.Data.{
  root_id, test_kdfs, seed, sha512_parameters, sha512_named, l2_key_of, group_envelope,
  group_envelope-IsGenuine, secret_envelope,
}

abbrev descriptor : Bytes
descriptor = 1 ∷ 0 ∷ 4 ∷ 128 ∷ []

abbrev pub domain : Domain
domain = record { algorithm = λ id. sha512; seed = λ id sd l0. seed }

empty-IsGenuineCache : IsGenuineCache test_kdfs domain empty_cache
unfolding cached lookup
empty-IsGenuineCache = record { entries = λ id sd l0 rk found. cc; roots = λ id root_key found. cc }

envelope-Fits : Fits test_kdfs domain root_id descriptor 361 group_envelope
envelope-Fits = record {
  id_same = refl;
  l0_same = refl;
  named = sha512_named;
  genuine = group_envelope-IsGenuine;
}

abbrev cache : KeyCache
cache = store_key descriptor group_envelope empty_cache

store_key-IsGenuineCache_example :
    IsGenuineCache test_kdfs domain (store_key descriptor group_envelope empty_cache)
store_key-IsGenuineCache_example =
    store_key-IsGenuineCache test_kdfs domain descriptor group_envelope empty_cache
      empty-IsGenuineCache envelope-Fits

cache-genuine : IsGenuineCache test_kdfs domain cache
cache-genuine =
    store_key-IsGenuineCache test_kdfs domain descriptor group_envelope empty_cache
      empty-IsGenuineCache envelope-Fits

get_key-IsGenuineCache_example :
    IsGenuineCache test_kdfs domain (get_key test_kdfs descriptor root_id 361 19 3 cache).0
get_key-IsGenuineCache_example =
    get_key-IsGenuineCache test_kdfs domain root_id descriptor 361 19 3 cache cache-genuine
      (omega arith)

usable : is_usable (cached cache root_id descriptor 361) 19 3 ≡ true
unfolding cached store_key enter write is_newer is_usable lookup insert setdefault
usable = refl

found : (get_key test_kdfs descriptor root_id 361 19 3 cache).1 ≡ ok (some group_envelope)
unfolding get_key store_key enter write is_newer is_usable lookup insert setdefault
found = refl

compute_l2_key-get_key_example :
    compute_l2_key test_kdfs sha512 group_envelope 19 3 ≡ ok (l2_key_of 12 28)
compute_l2_key-get_key_example =
    compute_l2_key-get_key test_kdfs domain root_id descriptor 361 19 3 cache group_envelope
      cache-genuine (omega arith) (omega arith) (omega arith) (inr usable) found

abbrev root_key : RootKey
root_key = record {
  key = 5 ∷ 4 ∷ 3 ∷ [];
  version = 1;
  kdf_algorithm = text "SP800_108_CTR_HMAC";
  kdf_parameters = sha512_parameters;
  secret_algorithm = text "DH";
  secret_parameters = none;
  private_key_length = 512;
  public_key_length = 2048;
}

-- The cache with the root key loaded.
abbrev full_cache : KeyCache
full_cache = record {
  root_keys = (root_id, root_key) ∷ [];
  seed_keys = (root_id, (descriptor, (361, group_envelope) ∷ []) ∷ []) ∷ [];
}

full_cached : cached full_cache root_id descriptor 361 ≡ some group_envelope
unfolding cached lookup
full_cached = refl

not_usable : is_usable (some group_envelope) 25 0 ≡ false
unfolding is_usable
not_usable = refl

root_found : lookup root_id full_cache.root_keys ≡ some root_key
unfolding lookup
root_found = refl

abbrev root_bytes : Bytes
root_bytes = elim (root_seed test_kdfs descriptor root_id 361 root_key) [ ok bs ↦ bs | err e ↦ [] ]

root_seeded : root_seed test_kdfs descriptor root_id 361 root_key ≡ ok root_bytes
unfolding root_seed named_algorithm unpack hash_algorithm from_le decode_utf16 compute_l1_key
    compute_kdf_context to_bytes_signed
root_seeded = refl

get_key-stale_example :
    ((get_key test_kdfs descriptor root_id 361 25 0 full_cache).1 ≡ ok (some group_envelope))
    × (compute_l2_key test_kdfs sha512 group_envelope 25 0 ≡ err overflow_error)
get_key-stale_example =
    get_key-stale test_kdfs sha512 root_id descriptor 361 25 0 full_cache group_envelope root_key
      root_bytes full_cached not_usable root_found root_seeded

store_key_monotone_example :
    is_usable (cached (store_key descriptor secret_envelope cache) root_id descriptor 361) 19 3
    ≡ true
store_key_monotone_example =
    store_key_monotone descriptor secret_envelope cache root_id descriptor 361 19 3 usable

get_key-store_key_example :
    (is_usable (cached (store_key descriptor secret_envelope cache) root_id descriptor 361) 19 3
      ≡ true)
    × ((get_key test_kdfs descriptor root_id 361 19 3
          (store_key descriptor secret_envelope cache)).1
        ≡ ok (cached (store_key descriptor secret_envelope cache) root_id descriptor 361))
get_key-store_key_example = get_key-store_key test_kdfs descriptor secret_envelope cache

cached-store_key_example :
    cached (store_key descriptor secret_envelope full_cache) root_id descriptor 361 ≡ (
      if is_newer secret_envelope (cached full_cache root_id descriptor 361)
      then some secret_envelope
      else cached full_cache root_id descriptor 361)
cached-store_key_example =
    cached-store_key descriptor secret_envelope full_cache root_id descriptor 361

abbrev load_arguments : LoadKey
load_arguments = record {
  key = 5 ∷ 4 ∷ 3 ∷ [];
  version = 1;
  kdf_algorithm = text "SP800_108_CTR_HMAC";
  kdf_parameters = none;
  secret_algorithm = text "DH";
  secret_parameters = none;
  private_key_length = 512;
  public_key_length = 2048;
}

empty_cached : cached empty_cache root_id descriptor 361 ≡ none
unfolding cached lookup
empty_cached = refl

get_key-load_key_example :
    (cache' : KeyCache) × (rk : GroupKeyEnvelope) × (load_key root_id load_arguments empty_cache
      ≡ ok cache')
    × ((get_key test_kdfs descriptor root_id 361 25 0 cache').1 ≡ ok (some rk))
    × (compute_l2_key test_kdfs sha512 rk 25 0
        ≡ ok (
            l2_key_at test_kdfs sha512 root_id 361
              (l1_seed_at test_kdfs sha512 descriptor root_id 361 (5 ∷ 4 ∷ 3 ∷ []))
              (31 - 25)
              (31 - 0)))
get_key-load_key_example =
    get_key-load_key test_kdfs sha512 load_arguments root_id descriptor 361 25 0 empty_cache refl
      (omega arith) (omega arith) (omega arith) empty_cached
