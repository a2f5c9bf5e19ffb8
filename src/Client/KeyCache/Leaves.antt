-- ===== src/Client/KeyCache/Leaves.antt =====
-- What _get_key and _store_key of src/dpapi_ng/_client.py leave in the cache.
use dpapi_ng.Base.{
  ℕ, ◌≡◌, refl, ◌∙◌, ap, arith, inl, inr, true, false, Option, none, some, lookup, Bool-cases,
  nat_eq, bytes_eq_instance, ok, err, Result-cases,
}
use dpapi_ng.Bytes.{Bytes}
use dpapi_ng.Bytes.Uuid.{Uuid, uuid_eq}
use dpapi_ng.Crypto.{Kdfs}
use dpapi_ng.Gkdi.Envelope.{GroupKeyEnvelope}
use dpapi_ng.Gkdi.Derive.Chain.{Covers}
use dpapi_ng.Client.KeyCache.{
  RootKey, KeyCache, enter, is_usable, is_newer, root_seed, root_envelope, remember, from_root,
  get_key, store_key,
}
use dpapi_ng.Client.KeyCache.View.{
  cached, cached-enter, lookup-enter, cached-store_key, cached-remember, remember_value,
  get_key-usable,
}
use dpapi_ng.Client.KeyCache.Order.{same_place_refl}

module _ (c : Kdfs) (id : Uuid) (sd : Bytes) (l0 : ℕ) where
  from_root-leaves :
      (o : Option RootKey) (cache : KeyCache) (rk : GroupKeyEnvelope)
      → (from_root c sd id l0 o cache).1 ≡ ok (some rk)
      → cached (from_root c sd id l0 o cache).0 id sd l0 ≡ some rk
  unfolding from_root
  from_root-leaves none cache rk e = cc
  from_root-leaves (some root_key) cache rk e =
      elim (Result-cases (root_seed c sd id l0 root_key)) [
        | inl (raised, failed) ↦
            let e' : err raised ≡ ok (some rk) = rw (from_root, failed) at e in cc
        | inr (seed, found) ↦
            let gke = root_envelope root_key id l0 seed in
            let e' : ok (some (remember sd id l0 gke cache).1) ≡ ok (some rk) =
              rw (from_root, found) at e in
            let value = remember_value sd id l0 gke cache in
            rw
              (
                from_root,
                found,
                cached-remember sd id l0 gke cache id sd l0,
                same_place_refl id sd l0,
              )
              cc
      ]

  -- A key that _get_key returns stands in its place afterwards.
  pub get_key-leaves :
      (l1 l2 : ℕ) (cache : KeyCache) (rk : GroupKeyEnvelope)
      → (get_key c sd id l0 l1 l2 cache).1 ≡ ok (some rk)
      → cached (get_key c sd id l0 l1 l2 cache).0 id sd l0 ≡ some rk
  unfolding get_key
  get_key-leaves l1 l2 cache rk e =
      elim (Bool-cases (is_usable (lookup l0 (enter id sd cache).1) l1 l2)) [
        | inl usable ↦
            let e' = rw usable at e in
            rw (usable, cached-enter id id sd sd l0 cache, ← lookup-enter id sd l0 cache) cc
        | inr not_usable ↦ rw not_usable (
            from_root-leaves (lookup id cache.root_keys) (enter id sd cache).0 rk
              (rw not_usable at e))
      ]

  -- A place whose key covers the indices of a stored one keeps its key, and _get_key returns it.
  pub get_key-store_covered :
      (cache : KeyCache) (key rk : GroupKeyEnvelope)
      → cached cache id sd l0 ≡ some rk
      → key.root_key_identifier ≡ id
      → key.l0 ≡ l0
      → Covers rk.l1 rk.l2 key.l1 key.l2
      → (get_key c sd id l0 key.l1 key.l2 (store_key sd key cache)).1 ≡ ok (some rk)
  unfolding is_newer
  get_key-store_covered cache key rk held same_id same_l0 covers =
      let stored = cached-store_key sd key cache id sd l0 in
      let covered : is_usable (some rk) key.l1 key.l2 ≡ true = unfold is_usable in ground arith in
      let older : is_newer key (some rk) ≡ false = ground arith in
      let left : cached (store_key sd key cache) id sd l0 ≡ some rk =
        rw (stored, same_id, same_l0, held, older) refl in
      get_key-usable c id sd l0 key.l1 key.l2 (store_key sd key cache) (rw left covered)
      ∙ ap ok left
