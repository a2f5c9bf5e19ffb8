-- ===== src/Client/KeyCache/View.antt =====
-- KeyCache of src/dpapi_ng/_client.py: what it holds for a root key, a descriptor and an L0
-- index.
use dpapi_ng.Base.{
  ℕ, ◌≡◌, refl, ap, sym, ◌∙◌, arith, Bool, true, false, ◌&&◌, Option, some, if◌then◌else◌, Dict,
  lookup, or_else, inner, nat_eq, bytes_eq_instance, Bool-cases, inl, inr, bytes_eq, ◌==◌,
  inner-enter, lookup-inner_write, lookup-insert, lookup-setdefault, bytes_eq→eq, setdefault_value,
}
use dpapi_ng.Bytes.{Bytes}
use dpapi_ng.Bytes.Uuid.{Uuid, uuid_eq, uuid_beq, uuid_beq→eq}
use dpapi_ng.Gkdi.Envelope.{GroupKeyEnvelope}
use dpapi_ng.Client.KeyCache.{
  KeyCache, enter, write, remember, is_newer, is_usable, store_key, get_key, from_root,
}
use dpapi_ng.Crypto.{Kdfs}
use dpapi_ng.Base.{ok}

abbrev pub by_l0_of : KeyCache → Uuid → Bytes → Dict ℕ GroupKeyEnvelope
by_l0_of cache root_key_id target_sd = inner target_sd (inner root_key_id cache.seed_keys)

unfoldable pub cached : KeyCache → Uuid → Bytes → ℕ → Option GroupKeyEnvelope
cached cache root_key_id target_sd l0 = lookup l0 (by_l0_of cache root_key_id target_sd)

-- The same coordinates.
abbrev pub same_place : Uuid → Bytes → ℕ → Uuid → Bytes → ℕ → Bool
same_place id sd l0 id' sd' l0' = uuid_beq id' id && (bytes_eq sd' sd && l0' == l0)

by_l0_of-enter :
    (id id' : Uuid) (sd sd' : Bytes) (cache : KeyCache)
    → by_l0_of (enter id sd cache).0 id' sd' ≡ by_l0_of cache id' sd'
unfolding enter
by_l0_of-enter id id' sd sd' cache = inner-enter id id' sd sd' cache.seed_keys

pub enter-by_l0 :
    (id : Uuid) (sd : Bytes) (cache : KeyCache) → (enter id sd cache).1 ≡ by_l0_of cache id sd
unfolding enter
enter-by_l0 id sd cache = simp setdefault_value

pub cached-enter :
    (id id' : Uuid) (sd sd' : Bytes) (l0' : ℕ) (cache : KeyCache)
    → cached (enter id sd cache).0 id' sd' l0' ≡ cached cache id' sd' l0'
unfolding cached
cached-enter id id' sd sd' l0' cache = ap (lookup l0') (by_l0_of-enter id id' sd sd' cache)

pub root_keys-enter :
    (id : Uuid) (sd : Bytes) (cache : KeyCache) → (enter id sd cache).0.root_keys ≡ cache.root_keys
unfolding enter
root_keys-enter id sd cache = refl

-- A write of the inner dictionary of one place.
cached-write :
    (id id' : Uuid) (sd sd' : Bytes) (l0' : ℕ) (by_l0 : Dict ℕ GroupKeyEnvelope) (cache : KeyCache)
    → cached (write id sd by_l0 cache) id' sd' l0'
      ≡ (if uuid_beq id' id && bytes_eq sd' sd then lookup l0' by_l0 else cached cache id' sd' l0')
unfolding write cached
cached-write id id' sd sd' l0' by_l0 cache =
    lookup-inner_write id id' sd sd' l0' by_l0 cache.seed_keys

-- The dictionary that `enter` returns is the one that its cache holds.
pub enter-inside :
    (id : Uuid) (sd : Bytes) (cache : KeyCache)
    → (enter id sd cache).1 ≡ by_l0_of (enter id sd cache).0 id sd
enter-inside id sd cache = enter-by_l0 id sd cache ∙ sym (by_l0_of-enter id id sd sd cache)

pub lookup-enter :
    (id : Uuid) (sd : Bytes) (l0 : ℕ) (cache : KeyCache)
    → lookup l0 (enter id sd cache).1 ≡ cached cache id sd l0
unfolding cached
lookup-enter id sd l0 cache = ap (lookup l0) (enter-by_l0 id sd cache)

-- A write behind `enter` of a dictionary that differs at one L0 index.
cached-enter-write :
    (id id' : Uuid) (sd sd' : Bytes) (l0 l0' : ℕ) (by_l0 : Dict ℕ GroupKeyEnvelope)
    (key : GroupKeyEnvelope) (cache : KeyCache)
    → lookup l0' by_l0 ≡ (if l0' == l0 then some key else lookup l0' (enter id sd cache).1)
    → cached (write id sd by_l0 (enter id sd cache).0) id' sd' l0'
      ≡ (if same_place id sd l0 id' sd' l0' then some key else cached cache id' sd' l0')
cached-enter-write id id' sd sd' l0 l0' by_l0 key cache h =
    rw
      (
        cached-write id id' sd sd' l0' by_l0 (enter id sd cache).0,
        h,
        lookup-enter id sd l0' cache,
        cached-enter id id' sd sd' l0' cache,
      )
      (elim (Bool-cases (uuid_beq id' id)) [
        | inl same_id ↦
            rw (same_id, uuid_beq→eq id' id same_id)
              (elim (Bool-cases (bytes_eq sd' sd)) [
                | inl same_sd ↦ rw (same_sd, bytes_eq→eq sd' sd same_sd)
                | inr differ ↦ rw differ
              ])
        | inr differ ↦ rw differ
      ])

-- After _store_key the place of the key holds it if it is newer than what was there, and every
-- other place of the cache holds what it held.
pub cached-store_key :
    (sd : Bytes) (key : GroupKeyEnvelope) (cache : KeyCache) (id' : Uuid) (sd' : Bytes) (l0' : ℕ)
    → cached (store_key sd key cache) id' sd' l0' ≡ (
        if is_newer key (cached cache key.root_key_identifier sd key.l0)
        then (if same_place key.root_key_identifier sd key.l0 id' sd' l0'
            then some key
            else cached cache id' sd' l0')
        else cached cache id' sd' l0')
unfolding store_key
cached-store_key sd key cache id' sd' l0' =
    let id = key.root_key_identifier in
    rw (lookup-enter id sd key.l0 cache)
      (elim (Bool-cases (is_newer key (cached cache id sd key.l0))) [
        | inl newer ↦ rw newer (
            cached-enter-write id id' sd sd' key.l0 l0' _ key cache
              (lookup-insert l0' key.l0 key (enter id sd cache).1))
        | inr older ↦ rw older (cached-enter id id' sd sd' l0' cache)
      ])

-- remember keeps an envelope that is there already, and returns what the place then holds.
pub cached-remember :
    (sd : Bytes) (id : Uuid) (l0 : ℕ) (gke : GroupKeyEnvelope) (cache : KeyCache) (id' : Uuid)
    (sd' : Bytes) (l0' : ℕ)
    → cached (remember sd id l0 gke cache).0 id' sd' l0' ≡ (
        if same_place id sd l0 id' sd' l0'
        then some (or_else (cached cache id sd l0) gke)
        else cached cache id' sd' l0')
unfolding remember
cached-remember sd id l0 gke cache id' sd' l0' =
    cached-enter-write id id' sd sd' l0 l0' _ (or_else (cached cache id sd l0) gke) cache
      (rw (← lookup-enter id sd l0 cache) (lookup-setdefault l0' l0 gke (enter id sd cache).1))

pub remember_value :
    (sd : Bytes) (id : Uuid) (l0 : ℕ) (gke : GroupKeyEnvelope) (cache : KeyCache)
    → (remember sd id l0 gke cache).1 ≡ or_else (cached cache id sd l0) gke
unfolding remember
remember_value sd id l0 gke cache =
    rw (setdefault_value l0 gke (enter id sd cache).1, lookup-enter id sd l0 cache)

pub root_keys-remember :
    (sd : Bytes) (id : Uuid) (l0 : ℕ) (gke : GroupKeyEnvelope) (cache : KeyCache)
    → (remember sd id l0 gke cache).0.root_keys ≡ cache.root_keys
unfolding remember write enter
root_keys-remember sd id l0 gke cache = refl

pub root_keys-store_key :
    (sd : Bytes) (key : GroupKeyEnvelope) (cache : KeyCache)
    → (store_key sd key cache).root_keys ≡ cache.root_keys
unfolding store_key write enter
root_keys-store_key sd key cache = ground arith

pub same_place-eq :
    (id : Uuid) (sd : Bytes) (l0 : ℕ) (id' : Uuid) (sd' : Bytes) (l0' : ℕ)
    → same_place id sd l0 id' sd' l0' ≡ true
    → (id' ≡ id) × (sd' ≡ sd) × (l0' ≡ l0)
same_place-eq id sd l0 id' sd' l0' h =
    (uuid_beq→eq id' id (ground arith), bytes_eq→eq sd' sd (ground arith), ground arith)

module _ (c : Kdfs) where
  -- What _get_key finds where the cache holds a key at or above the request.
  pub get_key-usable :
      (id : Uuid) (sd : Bytes) (l0 l1 l2 : ℕ) (cache : KeyCache)
      → is_usable (cached cache id sd l0) l1 l2 ≡ true
      → (get_key c sd id l0 l1 l2 cache).1 ≡ ok (cached cache id sd l0)
  unfolding get_key
  get_key-usable id sd l0 l1 l2 cache usable = rw (lookup-enter id sd l0 cache, usable)

  -- What it finds elsewhere: what the root key gives, after what stands in the place.
  pub get_key-root :
      (id : Uuid) (sd : Bytes) (l0 l1 l2 : ℕ) (cache : KeyCache)
      → is_usable (cached cache id sd l0) l1 l2 ≡ false
      → (get_key c sd id l0 l1 l2 cache).1
        ≡ (from_root c sd id l0 (lookup id cache.root_keys) (enter id sd cache).0).1
  unfolding get_key
  get_key-root id sd l0 l1 l2 cache h = rw (lookup-enter id sd l0 cache, h)
