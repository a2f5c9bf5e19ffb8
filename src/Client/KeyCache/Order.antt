-- ===== src/Client/KeyCache/Order.antt =====
-- _store_key of src/dpapi_ng/_client.py and the order of the keys.
use dpapi_ng.Base.{
  ℕ, ◌≡◌, arith, inl, inr, true, false, Option, none, some, Bool-cases, nat_eq, ok, ==_refl,
  bytes_eq_refl,
}
use dpapi_ng.Bytes.{Bytes}
use dpapi_ng.Bytes.Uuid.{Uuid, uuid_eq}
use dpapi_ng.Crypto.{Kdfs}
use dpapi_ng.Gkdi.Envelope.{GroupKeyEnvelope}
use dpapi_ng.Client.KeyCache.{KeyCache, is_usable, is_newer, get_key, store_key}
use dpapi_ng.Client.KeyCache.View.{
  cached, same_place, cached-store_key, same_place-eq, get_key-usable,
}

newer-usable :
    (key : GroupKeyEnvelope) (o : Option GroupKeyEnvelope) (l1 l2 : ℕ)
    → is_newer key o ≡ true
    → is_usable o l1 l2 ≡ true
    → is_usable (some key) l1 l2 ≡ true
unfolding is_newer is_usable
newer-usable key none l1 l2 newer usable = cc
newer-usable key (some old) l1 l2 newer usable = ground arith

not_newer-usable :
    (key : GroupKeyEnvelope) (o : Option GroupKeyEnvelope)
    → is_newer key o ≡ false
    → is_usable o key.l1 key.l2 ≡ true
unfolding is_newer is_usable
not_newer-usable key none older = cc
not_newer-usable key (some old) older = ground arith

self-usable : (key : GroupKeyEnvelope) → is_usable (some key) key.l1 key.l2 ≡ true
unfolding is_usable
self-usable key = ground arith

pub same_place_refl : (id : Uuid) (sd : Bytes) (l0 : ℕ) → same_place id sd l0 id sd l0 ≡ true
same_place_refl id sd l0 = rw (uuid_eq.beq_refl id, bytes_eq_refl sd, ==_refl l0)

-- A request that a place of the cache can serve stays one that it can serve when a key is stored,
-- whatever the key is and wherever it goes.
pub store_key_monotone :
    (sd : Bytes) (key : GroupKeyEnvelope) (cache : KeyCache) (id' : Uuid) (sd' : Bytes)
    (l0' l1 l2 : ℕ)
    → is_usable (cached cache id' sd' l0') l1 l2 ≡ true
    → is_usable (cached (store_key sd key cache) id' sd' l0') l1 l2 ≡ true
store_key_monotone sd key cache id' sd' l0' l1 l2 usable =
    let id = key.root_key_identifier in
    rw (cached-store_key sd key cache id' sd' l0')
      (elim (Bool-cases (is_newer key (cached cache id sd key.l0))) [
        | inr older ↦ rw older usable
        | inl newer ↦ rw newer (elim (Bool-cases (same_place id sd key.l0 id' sd' l0')) [
          | inr differ ↦ rw differ usable
          | inl same ↦
              let (a, b, e) = same_place-eq id sd key.l0 id' sd' l0' same in
              rw same (newer-usable key _ l1 l2 newer (rw (a, b, e) at usable))
        ])
      ])

-- After _store_key of a key, the place of the key holds one at or above its indices, and _get_key
-- for those indices returns what the place holds.
pub get_key-store_key :
    (c : Kdfs) (sd : Bytes) (key : GroupKeyEnvelope) (cache : KeyCache)
    → (is_usable (cached (store_key sd key cache) key.root_key_identifier sd key.l0) key.l1 key.l2
        ≡ true)
      × ((get_key c sd key.root_key_identifier key.l0 key.l1 key.l2 (store_key sd key cache)).1
          ≡ ok (cached (store_key sd key cache) key.root_key_identifier sd key.l0))
get_key-store_key c sd key cache =
    let id = key.root_key_identifier in
    let usable : is_usable (cached (store_key sd key cache) id sd key.l0) key.l1 key.l2 ≡ true =
      rw (cached-store_key sd key cache id sd key.l0)
        (elim (Bool-cases (is_newer key (cached cache id sd key.l0))) [
          | inr older ↦ rw older (not_newer-usable key _ older)
          | inl newer ↦ rw (newer, same_place_refl id sd key.l0) (self-usable key)
        ]) in
    (usable, get_key-usable c id sd key.l0 key.l1 key.l2 (store_key sd key cache) usable)
