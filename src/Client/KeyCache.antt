-- ===== src/Client/KeyCache.antt =====
-- class KeyCache and class RootKey of src/dpapi_ng/_client.py. A method returns the cache as it
-- leaves it beside its result, since what it wrote before an exception stays written.
pub mod View
pub mod Genuine
pub mod Serve
pub mod Stale
pub mod Order
pub mod Leaves
pub mod LoadKey
use dpapi_ng.Base.{
  ℕ, Bool, true, false, ◌&&◌, ◌||◌, Option, none, some, List, [], ◌==◌, ltb, leb, if◌then◌else◌,
  Result, ok, err, ◌>>=◌, Dict, lookup, insert, setdefault, or_else, inner,
}
use dpapi_ng.Bytes.{Bytes}
use dpapi_ng.Bytes.Text.{Text}
use dpapi_ng.Bytes.Uuid.{Uuid, uuid_eq}
use dpapi_ng.Base.{nat_eq, bytes_eq_instance}
use dpapi_ng.Crypto.{HashAlgorithm, Kdfs}
use dpapi_ng.Gkdi.Envelope.{GroupKeyEnvelope}
use dpapi_ng.Gkdi.KdfParameters.{named_algorithm}
use dpapi_ng.Gkdi.Derive.{compute_l1_key}

pub record RootKey : Type 0 where
  pub key : Bytes
  pub version : ℕ
  pub kdf_algorithm : Text
  pub kdf_parameters : Bytes
  pub secret_algorithm : Text
  pub secret_parameters : Option Bytes
  pub private_key_length : ℕ
  pub public_key_length : ℕ

-- The keys of a root key: by target security descriptor, then by L0 index.
abbrev pub SeedKeys : Type 0
SeedKeys = Dict Bytes (Dict ℕ GroupKeyEnvelope)

pub record KeyCache : Type 0 where
  pub root_keys : Dict Uuid RootKey
  pub seed_keys : Dict Uuid SeedKeys

-- KeyCache()
abbrev pub empty_cache : KeyCache
empty_cache = record { root_keys = []; seed_keys = [] }

-- self._seed_keys.setdefault(root_key_id, {}).setdefault(target_sd, {}): the cache with both
-- dictionaries in place, and the inner one
unfoldable pub enter : Uuid → Bytes → KeyCache → KeyCache × Dict ℕ GroupKeyEnvelope
enter root_key_id target_sd cache =
    let (outer, by_sd) = setdefault root_key_id [] cache.seed_keys in
    let (by_sd', by_l0) = setdefault target_sd [] by_sd in
    (record cache { seed_keys = insert root_key_id by_sd' outer }, by_l0)

-- The inner dictionary is shared with the outer ones: a write to it is a write to them.
unfoldable pub write : Uuid → Bytes → Dict ℕ GroupKeyEnvelope → KeyCache → KeyCache
write root_key_id target_sd by_l0 cache =
    let by_sd = inner root_key_id cache.seed_keys in
    record cache { seed_keys = insert root_key_id (insert target_sd by_l0 by_sd) cache.seed_keys }

-- seed_key and (seed_key.l1 > l1 or (seed_key.l1 == l1 and seed_key.l2 >= l2))
unfoldable pub is_usable : Option GroupKeyEnvelope → ℕ → ℕ → Bool
is_usable none l1 l2 = false
is_usable (some seed_key) l1 l2 = ltb l1 seed_key.l1 || (seed_key.l1 == l1 && leb l2 seed_key.l2)

-- not existing or key.l1 > existing.l1 or (key.l1 == existing.l1 and key.l2 > existing.l2)
unfoldable pub is_newer : GroupKeyEnvelope → Option GroupKeyEnvelope → Bool
is_newer key none = true
is_newer key (some existing) =
    ltb existing.l1 key.l1 || (key.l1 == existing.l1 && ltb existing.l2 key.l2)

-- The envelope that a root key gives for an L0 index: its highest keys.
unfoldable pub root_envelope : RootKey → Uuid → ℕ → Bytes → GroupKeyEnvelope
root_envelope root_key root_key_id l0 l1_seed = record {
  version = root_key.version;
  flags = 2;
  l0 = l0;
  l1 = 31;
  l2 = 31;
  root_key_identifier = root_key_id;
  kdf_algorithm = root_key.kdf_algorithm;
  kdf_parameters = root_key.kdf_parameters;
  secret_algorithm = root_key.secret_algorithm;
  secret_parameters = or_else root_key.secret_parameters [];
  private_key_length = root_key.private_key_length;
  public_key_length = root_key.public_key_length;
  domain_name = [];
  forest_name = [];
  l1_key = l1_seed;
  l2_key = [];
}

module _ (target_sd : Bytes) (root_key_id : Uuid) (l0 : ℕ) where
  -- ….setdefault(root_key_id, {}).setdefault(target_sd, {}).setdefault(l0, gke)
  unfoldable pub remember : GroupKeyEnvelope → KeyCache → KeyCache × GroupKeyEnvelope
  remember gke cache =
      let (cache', by_l0) = enter root_key_id target_sd cache in
      let (by_l0', value) = setdefault l0 gke by_l0 in
      (write root_key_id target_sd by_l0' cache', value)

module _ (c : Kdfs) (target_sd : Bytes) (root_key_id : Uuid) (l0 : ℕ) where
  unfoldable pub root_seed : RootKey → Result Bytes
  root_seed root_key = do
    algorithm ← named_algorithm root_key.kdf_parameters
    compute_l1_key c target_sd root_key_id l0 root_key.key algorithm

  unfoldable pub from_root : Option RootKey → KeyCache → KeyCache × Result (Option GroupKeyEnvelope)
  from_root none cache = (cache, ok none)
  from_root (some root_key) cache = elim (root_seed root_key) [
    | err e ↦ (cache, err e)
    | ok l1_seed ↦
        let (cache', value) =
          remember target_sd root_key_id l0 (root_envelope root_key root_key_id l0 l1_seed) cache in
        (cache', ok (some value))
  ]

  -- KeyCache._get_key
  unfoldable pub get_key : ℕ → ℕ → KeyCache → KeyCache × Result (Option GroupKeyEnvelope)
  get_key l1 l2 cache =
      let (cache', by_l0) = enter root_key_id target_sd cache in
      let seed_key = lookup l0 by_l0 in
      if is_usable seed_key l1 l2
      then (cache', ok seed_key)
      else from_root (lookup root_key_id cache.root_keys) cache'

-- KeyCache._store_key
unfoldable pub store_key : Bytes → GroupKeyEnvelope → KeyCache → KeyCache
store_key target_sd key cache =
    let (cache', by_l0) = enter key.root_key_identifier target_sd cache in
    if is_newer key (lookup key.l0 by_l0)
    then write key.root_key_identifier target_sd (insert key.l0 key by_l0) cache'
    else cache'
