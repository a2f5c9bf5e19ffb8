-- ===== src/Client/KeyCache/Stale.antt =====
-- KeyCache._get_key of src/dpapi_ng/_client.py where the cache holds a key below the request.
use dpapi_ng.Base.{ℕ, ◌≡◌, arith, false, some, lookup, or_else, nat_eq, ok, err, overflow_error}
use dpapi_ng.Bytes.{Bytes}
use dpapi_ng.Bytes.Uuid.{Uuid, uuid_eq}
use dpapi_ng.Crypto.{HashAlgorithm, Kdfs}
use dpapi_ng.Gkdi.Envelope.{GroupKeyEnvelope}
use dpapi_ng.Gkdi.Derive.{compute_l2_key}
use dpapi_ng.Gkdi.Derive.Total.{compute_l2_key-overflow}
use dpapi_ng.Client.KeyCache.{
  RootKey, KeyCache, enter, is_usable, root_envelope, root_seed, from_root, get_key,
}
use dpapi_ng.Client.KeyCache.View.{cached, cached-enter, remember_value, get_key-root}

module _ (c : Kdfs) where
  from_root_value :
      (id : Uuid) (sd : Bytes) (l0 : ℕ) (root_key : RootKey) (seed : Bytes) (cache : KeyCache)
      → root_seed c sd id l0 root_key ≡ ok seed
      → (from_root c sd id l0 (some root_key) cache).1
        ≡ ok (some (or_else (cached cache id sd l0) (root_envelope root_key id l0 seed)))
  unfolding from_root
  from_root_value id sd l0 root_key seed cache e =
      rw (e, from_root, remember_value sd id l0 _ cache)

  -- Where the cache holds an envelope below the request, and the root key is loaded and gives a
  -- level 1 key: _get_key still returns the old envelope, and compute_l2_key on it raises
  -- OverflowError for the request.
  pub get_key-stale :
      (algorithm : HashAlgorithm) (id : Uuid) (sd : Bytes) (l0 l1 l2 : ℕ) (cache : KeyCache)
      (old : GroupKeyEnvelope) (root_key : RootKey) (seed : Bytes)
      → cached cache id sd l0 ≡ some old
      → is_usable (some old) l1 l2 ≡ false
      → lookup id cache.root_keys ≡ some root_key
      → root_seed c sd id l0 root_key ≡ ok seed
      → ((get_key c sd id l0 l1 l2 cache).1 ≡ ok (some old))
        × (compute_l2_key c algorithm old l1 l2 ≡ err overflow_error)
  unfolding is_usable
  get_key-stale algorithm id sd l0 l1 l2 cache old root_key seed there unusable found e = (
    rw (
      get_key-root c id sd l0 l1 l2 cache (rw there unusable),
      found,
      from_root_value id sd l0 root_key seed (enter id sd cache).0 e,
      cached-enter id id sd sd l0 cache,
      there,
    ),
    compute_l2_key-overflow c algorithm old l1 l2 (ground arith),
  )
