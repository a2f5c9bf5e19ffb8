-- ===== src/Client/Clock.antt =====
-- _get_protection_gke_from_cache of src/dpapi_ng/_client.py: the indices of the current time, and the
-- group key for them.
pub mod Indices
use dpapi_ng.Base.{
  ℕ, zero, suc, ◌+◌, ◌-◌, ◌*◌, ◌/◌, ◌%◌, ◌^◌, Option, none, some, [], ◌==◌, ltb, if◌then◌else◌,
  Result, ok, err, ◌>>=◌,
}
use dpapi_ng.Bytes.{Bytes}
use dpapi_ng.Bytes.Uuid.{Uuid}
use dpapi_ng.Crypto.{Kdfs}
use dpapi_ng.Gkdi.Envelope.{GroupKeyEnvelope}
use dpapi_ng.Gkdi.KdfParameters.{named_algorithm}
use dpapi_ng.Gkdi.Derive.{compute_l2_key}
use dpapi_ng.Client.KeyCache.{KeyCache, get_key}

-- The exponent of the highest bit, a round for each bit.
unfoldable pub exponent : ℕ → ℕ → ℕ
exponent zero q = 0
exponent (suc fuel) q = let more = suc (exponent fuel (q / 2)) in if ltb q 2 then 0 else more

-- The number of binary places that a float of this size has: 53 bits in all.
unfoldable pub binary_places : ℕ → ℕ
binary_places q = if q == 0 then 53 else 52 - exponent 64 q

-- int(a / b): the quotient is rounded to the nearest float, and then down to an integer. A quotient
-- half way between two floats may go either way here: only one of the two is next to an integer, and
-- it is the even one.
unfoldable pub int_true_div : ℕ → ℕ → ℕ
int_true_div a b = let scale = 2 ^ binary_places (a / b) in (2 * a * scale + b) / (2 * b) / scale

abbrev pub epoch_filetime : ℕ
epoch_filetime = 116444736000000000

-- 3.6 * 10**11
abbrev pub base : ℕ
base = 360000000000

-- current_time, of time.time_ns()
abbrev pub filetime : ℕ → ℕ
filetime time_ns = time_ns / 100 + epoch_filetime

unfoldable pub l0_index : ℕ → ℕ
l0_index current_time = int_true_div current_time (32 * 32 * base)

unfoldable pub l1_index : ℕ → ℕ
l1_index current_time = int_true_div (current_time % (32 * 32 * base)) (32 * base)

unfoldable pub l2_index : ℕ → ℕ
l2_index current_time = int_true_div (current_time % (32 * base)) base

-- The envelope with a level 2 key and its indices, and with what rk says of the root key
unfoldable pub level2_envelope : Uuid → ℕ → ℕ → ℕ → GroupKeyEnvelope → Bytes → GroupKeyEnvelope
level2_envelope root_key_identifier l0 l1 l2 rk l2_key = record {
  version = rk.version;
  flags = rk.flags;
  l0 = l0;
  l1 = l1;
  l2 = l2;
  root_key_identifier = root_key_identifier;
  kdf_algorithm = rk.kdf_algorithm;
  kdf_parameters = rk.kdf_parameters;
  secret_algorithm = rk.secret_algorithm;
  secret_parameters = rk.secret_parameters;
  private_key_length = rk.private_key_length;
  public_key_length = rk.public_key_length;
  domain_name = rk.domain_name;
  forest_name = rk.forest_name;
  l1_key = [];
  l2_key = l2_key;
}

module _ (c : Kdfs) where
  -- The envelope with the level 2 key, of one that the cache has
  unfoldable pub protection_envelope :
      Uuid → ℕ → ℕ → ℕ → Option GroupKeyEnvelope → Result (Option GroupKeyEnvelope)
  protection_envelope root_key_identifier l0 l1 l2 none = ok none
  protection_envelope root_key_identifier l0 l1 l2 (some rk) = do
    algorithm ← named_algorithm rk.kdf_parameters
    l2_key ← compute_l2_key c algorithm rk l1 l2
    ok (some (level2_envelope root_key_identifier l0 l1 l2 rk l2_key))

  -- The group key at the indices
  unfoldable pub protection_gke_at :
      Uuid → Bytes → ℕ → ℕ → ℕ → KeyCache → KeyCache × Result (Option GroupKeyEnvelope)
  protection_gke_at root_key_identifier target_sd l0 l1 l2 cache =
      let (cache', found) = get_key c target_sd root_key_identifier l0 l1 l2 cache in
      (cache', found >>= protection_envelope root_key_identifier l0 l1 l2)

  unfoldable pub get_protection_gke_from_cache :
      ℕ → Option Uuid → Bytes → KeyCache → KeyCache × Result (Option GroupKeyEnvelope)
  get_protection_gke_from_cache time_ns none target_sd cache = (cache, ok none)
  get_protection_gke_from_cache time_ns (some root_key_identifier) target_sd cache =
      let current_time = filetime time_ns in
      protection_gke_at root_key_identifier target_sd (l0_index current_time)
        (l1_index current_time) (l2_index current_time) cache
