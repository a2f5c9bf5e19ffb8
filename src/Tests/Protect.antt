-- ===== src/Tests/Protect.antt =====
-- A secret that is protected and unprotected with one cache, and the indices of the clock.
use dpapi_ng.Base.{
  ℕ, ◌-◌, ◌*◌, ◌≡◌, refl, arith, inr, none, some, lookup, insert, setdefault, nat_eq,
  bytes_eq_instance, Result, ok, err, value_error, ◌>>=◌,
}
use dpapi_ng.Bytes.{Bytes}
use dpapi_ng.Bytes.Uuid.{uuid_eq}
use dpapi_ng.Gkdi.Envelope.{is_public_key}
use dpapi_ng.Gkdi.Kek.{new_identifier}
use dpapi_ng.Blob.KeyIdentifier.RoundTrip.{layout}
use dpapi_ng.Client.KeyCache.{
  KeyCache, empty_cache, enter, write, is_usable, is_newer, get_key, store_key,
}
use dpapi_ng.Client.KeyCache.View.{cached}
use dpapi_ng.Client.KeyCache.Genuine.{IsGenuineCache}
use dpapi_ng.Client.KeyCache.Serve.{store_key-IsGenuineCache}
use dpapi_ng.Client.Clock.{
  base, exponent, binary_places, int_true_div, l0_index, l1_index, l2_index, level2_envelope,
}
use dpapi_ng.Client.Clock.Indices.{indices_exact, l0_index_ahead}
use dpapi_ng.Client.Secret.RoundTrip.{IsStorable}
use dpapi_ng.Client.Protect.{Network, ncrypt_protect_secret, ncrypt_unprotect_secret}
use dpapi_ng.Client.Protect.Offline.{IsServed, now_enc, unprotect-protect}
use dpapi_ng.Tests.Data.{root_id, root_id-IsUuid, sha512_named, test_curves}
use dpapi_ng.Tests.Structures.{chars}
use dpapi_ng.Tests.Blob.{digit, user, user_sd, user_sd-ok}
use dpapi_ng.Tests.Cache.{domain}
use dpapi_ng.Tests.Secret.{
  long_kdfs, long_kdfs-derives, padding_ciphers, padding_ciphers-IsLawful, random, urandom, value,
  dec_envelope, dec_envelope-IsGenuine,
}

indices_exact_example :
    (l0_index (361 * (1024 * base) - 11) ≡ 360)
    × (l1_index (361 * (1024 * base) - 11) ≡ 31)
    × (l2_index (361 * (1024 * base) - 11) ≡ 31)
indices_exact_example = indices_exact (361 * (1024 * base) - 11) (omega arith) (omega arith)

l0_index_ahead_example :
    (l0_index (361 * (1024 * base) - 1) ≡ 361)
    × (l1_index (361 * (1024 * base) - 1) ≡ 31)
    × (l2_index (361 * (1024 * base) - 1) ≡ 31)
l0_index_ahead_example =
    l0_index_ahead (361 * (1024 * base) - 1) (omega arith) (omega arith) (omega arith)

-- In L0 interval 361, at L1 index 19 and L2 index 3.
abbrev time_ns : ℕ
time_ns = 1685426400000004200

abbrev cache : KeyCache
cache = store_key user_sd dec_envelope empty_cache

-- A domain controller that nobody reaches.
abbrev no_network : Network
no_network = record {
  lookup_dc = λ domain_name. err value_error;
  sync_get_key = λ server target_sd root_key_id l0 l1 l2. err value_error;
}

empty-IsGenuineCache : IsGenuineCache long_kdfs domain empty_cache
unfolding cached lookup
empty-IsGenuineCache = record { entries = λ id sd l0 rk found. cc; roots = λ id root_key found. cc }

cache-IsGenuineCache : IsGenuineCache long_kdfs domain cache
cache-IsGenuineCache =
    store_key-IsGenuineCache long_kdfs domain user_sd dec_envelope empty_cache empty-IsGenuineCache
      (record {
        id_same = refl;
        l0_same = refl;
        named = sha512_named;
        genuine = dec_envelope-IsGenuine;
      })

served : IsServed long_kdfs domain time_ns root_id user_sd cache dec_envelope
unfolding l0_index l1_index l2_index int_true_div binary_places exponent get_key cached store_key
    enter write is_newer is_usable lookup insert setdefault is_public_key
served = record {
  genuine = cache-IsGenuineCache;
  time = omega arith;
  current = inr refl;
  found = refl;
  secret = refl;
  known = refl;
}

storable :
    IsStorable
      (new_identifier long_kdfs test_curves
        (now_enc long_kdfs domain time_ns root_id user_sd cache dec_envelope)
        (urandom 32))
      value
      user
unfolding new_identifier layout level2_envelope l0_index l1_index l2_index int_true_div
    binary_places exponent
storable = record {
  identifier = record {
    version = omega arith;
    flags = omega arith;
    l0 = omega arith;
    l1 = omega arith;
    l2 = omega arith;
    root_key_identifier = root_id-IsUuid;
    key_info = omega arith;
    domain_name = chars dec_envelope.domain_name refl;
    domain_len = omega arith;
    forest_name = chars dec_envelope.forest_name refl;
    forest_len = omega arith;
  };
  descriptor = chars user refl;
  size = omega arith;
}

abbrev protected : KeyCache × Result Bytes
protected =
    ncrypt_protect_secret long_kdfs test_curves padding_ciphers digit no_network random urandom
      time_ns value user (some root_id) none none (some cache)

unprotect-protect_example :
    (protected.1 >>= λ octets.
    (ncrypt_unprotect_secret long_kdfs test_curves padding_ciphers digit no_network octets none
      (some protected.0)).1)
    ≡ ok value
unprotect-protect_example =
    unprotect-protect long_kdfs test_curves padding_ciphers long_kdfs-derives
      padding_ciphers-IsLawful random (record { cek = refl; iv = refl }) urandom digit no_network
      domain time_ns root_id user_sd value user cache dec_envelope none none none user_sd-ok served
      storable
