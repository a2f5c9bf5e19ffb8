-- ===== src/Client/Protect.antt =====
-- ncrypt_unprotect_secret and ncrypt_protect_secret of src/dpapi_ng/_client.py. Each returns the
-- cache as it leaves it beside its result.
pub mod Offline
use dpapi_ng.Base.{
  ℕ, Option, none, some, [], ◌∷◌, or_else, if◌then◌else◌, Result, ok, err, ◌>>=◌, ℤ, pos, negsuc,
}
use dpapi_ng.Bytes.{Bytes}
use dpapi_ng.Bytes.Text.{Text}
use dpapi_ng.Bytes.Uuid.{Uuid}
use dpapi_ng.Dns.{SrvRecord}
use dpapi_ng.Crypto.{Kdfs}
use dpapi_ng.Crypto.Content.{Ciphers, CekRandom}
use dpapi_ng.Gkdi.Envelope.{GroupKeyEnvelope, is_public_key}
use dpapi_ng.Gkdi.Kek.{Curves}
use dpapi_ng.Blob.DpapingBlob.{DpapingBlob, unpack, target_sd}
use dpapi_ng.Client.KeyCache.{KeyCache, empty_cache, get_key, store_key}
use dpapi_ng.Client.Clock.{get_protection_gke_from_cache}
use dpapi_ng.Client.Secret.{decrypt_blob, encrypt_blob}

-- What the two functions use of the network: lookup_dc, and _sync_get_key for a server with the credentials of the caller.
pub record Network : Type 0 where
  pub lookup_dc : Option Text → Result SrvRecord
  pub sync_get_key : Text → Bytes → Option Uuid → ℤ → ℤ → ℤ → Result GroupKeyEnvelope

-- What is left of the caller's cache, and the result
abbrev pub Outcome : Type 0
Outcome = KeyCache × Result Bytes

module _ (net : Network) where
  -- An empty name counts as none.
  unfoldable pub find_server : Option Text → Option Text → Result Text
  find_server none domain_name = do srv ← net.lookup_dc domain_name; ok srv.target
  find_server (some []) domain_name = do srv ← net.lookup_dc domain_name; ok srv.target
  find_server (some (x ∷ xs)) domain_name = ok (x ∷ xs)

  -- if not rk: …
  unfoldable pub or_fetch :
      Option Text
      → Option Text
      → Bytes
      → Option Uuid
      → ℤ
      → ℤ
      → ℤ
      → Option GroupKeyEnvelope
      → Result GroupKeyEnvelope
  or_fetch server domain_name target_sd root_key_id l0 l1 l2 none = do
    server' ← find_server server domain_name
    net.sync_get_key server' target_sd root_key_id l0 l1 l2
  or_fetch server domain_name target_sd root_key_id l0 l1 l2 (some rk) = ok rk

-- if not rk.is_public_key: cache._store_key(target_sd, rk), and what follows
unfoldable pub store_and_use :
    Bytes → (GroupKeyEnvelope → Result Bytes) → KeyCache → Result GroupKeyEnvelope → Outcome
store_and_use target_sd use_key cache (err e) = (cache, err e)
store_and_use target_sd use_key cache (ok rk) =
    (if is_public_key rk then cache else store_key target_sd rk cache, use_key rk)

module _ (c : Kdfs) (ec : Curves) (ci : Ciphers) (digit : ℕ → Option ℕ) (net : Network) where
  unfoldable pub unprotect_blob : Option Text → KeyCache → DpapingBlob → Outcome
  unprotect_blob server cache blob =
      let key_id = blob.key_identifier in
      let (cache', found) =
        get_key c blob.security_descriptor key_id.root_key_identifier key_id.l0 key_id.l1 key_id.l2
          cache in
      store_and_use blob.security_descriptor (decrypt_blob c ec ci blob) cache' (
        found
        >>= or_fetch net server (some key_id.domain_name) blob.security_descriptor
            (some key_id.root_key_identifier) (pos key_id.l0) (pos key_id.l1) (pos key_id.l2))

  unfoldable pub ncrypt_unprotect_secret : Bytes → Option Text → Option KeyCache → Outcome
  ncrypt_unprotect_secret secret server cache = elim (unpack digit secret) [
    | err e ↦ (or_else cache empty_cache, err e)
    | ok blob ↦ unprotect_blob server (or_else cache empty_cache) blob
  ]

  module _ (random : CekRandom) (urandom : ℕ → Bytes) (time_ns : ℕ) where
    unfoldable pub protect_with :
        Bytes → Text → Option Uuid → Option Text → Option Text → KeyCache → Bytes → Outcome
    protect_with secret protection_descriptor root_key_identifier server domain_name cache sd =
        let (cache', found) =
          get_protection_gke_from_cache c time_ns root_key_identifier sd cache in
        store_and_use sd
          (λ rk. encrypt_blob c ec ci random urandom secret rk sd protection_descriptor) cache'
          (found
            >>= or_fetch net server domain_name sd root_key_identifier (negsuc 0) (negsuc 0)
                (negsuc 0))

    unfoldable pub ncrypt_protect_secret :
        Bytes → Text → Option Uuid → Option Text → Option Text → Option KeyCache → Outcome
    ncrypt_protect_secret secret protection_descriptor root_key_identifier server domain_name
          cache =
        elim (target_sd digit protection_descriptor) [
          | err e ↦ (or_else cache empty_cache, err e)
          | ok sd ↦
              protect_with secret protection_descriptor root_key_identifier server domain_name
                (or_else cache empty_cache) sd
        ]
