-- ===== src/Client/KeyCache/Genuine.antt =====
-- What it means that a cache of src/dpapi_ng/_client.py belongs to one domain.
use dpapi_ng.Base.{
  ℕ, ◌^◌, ◌<◌, ◌≡◌, refl, sym, arith, some, if◌then◌else◌, lookup, or_else, Bool-cases, inl, inr,
  some-eq, ok,
}
use dpapi_ng.Bytes.{Bytes}
use dpapi_ng.Bytes.Uuid.{Uuid, uuid_eq}
use dpapi_ng.Crypto.{HashAlgorithm, Kdfs}
use dpapi_ng.Gkdi.Envelope.{GroupKeyEnvelope}
use dpapi_ng.Gkdi.KdfParameters.{named_algorithm}
use dpapi_ng.Gkdi.Derive.{compute_l1_key}
use dpapi_ng.Gkdi.Derive.Chain.{IsGenuine, l1_key_at}
use dpapi_ng.Client.KeyCache.{RootKey, KeyCache, remember, root_seed, root_envelope, from_root}
use dpapi_ng.Client.KeyCache.View.{cached, same_place, remember_value, same_place-eq}

-- What the domain controllers hold: for each root key its hash, and for each of its groups and L0
-- indices the level 1 key at index 31.
pub record Domain : Type 0 where
  pub algorithm : Uuid → HashAlgorithm
  pub seed : Uuid → Bytes → ℕ → Bytes

-- The envelope is the domain's, for its root key, the descriptor and its L0 index.
pub record Fits (c : Kdfs) (d : Domain) (id : Uuid) (sd : Bytes) (l0 : ℕ) (rk : GroupKeyEnvelope)
    : Type 0 where
  pub id_same : rk.root_key_identifier ≡ id
  pub l0_same : rk.l0 ≡ l0
  pub named : named_algorithm rk.kdf_parameters ≡ ok (d.algorithm id)
  pub genuine : IsGenuine c (d.algorithm id) (d.seed id sd l0) rk

pub record FitsRoot (c : Kdfs) (d : Domain) (id : Uuid) (root_key : RootKey) : Type 0 where
  pub named : named_algorithm root_key.kdf_parameters ≡ ok (d.algorithm id)
  pub seeds :
      (sd : Bytes) (l0 : ℕ)
      → l0 < 2 ^ 31
      → compute_l1_key c sd id l0 root_key.key (d.algorithm id) ≡ ok (d.seed id sd l0)

pub record IsGenuineCache (c : Kdfs) (d : Domain) (cache : KeyCache) : Type 0 where
  pub entries :
      (id : Uuid) (sd : Bytes) (l0 : ℕ) (rk : GroupKeyEnvelope)
      → cached cache id sd l0 ≡ some rk
      → Fits c d id sd l0 rk
  pub roots :
      (id : Uuid) (root_key : RootKey)
      → lookup id cache.root_keys ≡ some root_key
      → FitsRoot c d id root_key

module _ (c : Kdfs) (d : Domain) where
  pub root_seed_lem :
      (id : Uuid) (sd : Bytes) (l0 : ℕ) (root_key : RootKey)
      → FitsRoot c d id root_key
      → l0 < 2 ^ 31
      → root_seed c sd id l0 root_key ≡ ok (d.seed id sd l0)
  unfolding root_seed
  root_seed_lem id sd l0 root_key f h = rw f.named (f.seeds sd l0 h)

  -- The envelope that the root key gives holds the key at 31 and no other.
  pub root_envelope-Fits :
      (id : Uuid) (sd : Bytes) (l0 : ℕ) (root_key : RootKey)
      → FitsRoot c d id root_key
      → l0 < 2 ^ 31
      → Fits c d id sd l0 (root_envelope root_key id l0 (d.seed id sd l0))
  unfolding root_envelope l1_key_at
  root_envelope-Fits id sd l0 root_key f h = record {
    id_same = refl;
    l0_same = refl;
    named = f.named;
    genuine = record {
      l0_range = h;
      l1_range = omega arith;
      l2_range = omega arith;
      l1_full = λ e. refl;
      l1_below = λ e. absurd (omega arith);
      l2_full = λ e. absurd (omega arith);
    };
  }

  -- What a lookup finds after `from_root`.
  pub from_root-Fits :
      (id : Uuid) (sd : Bytes) (l0 : ℕ) (root_key : RootKey) (cache : KeyCache)
      → FitsRoot c d id root_key
      → l0 < 2 ^ 31
      → from_root c sd id l0 (some root_key) cache ≡ (
        (remember sd id l0 (root_envelope root_key id l0 (d.seed id sd l0)) cache).0,
        ok (
            some
              (or_else (cached cache id sd l0) (root_envelope root_key id l0 (d.seed id sd l0)))),
      )
  unfolding from_root
  from_root-Fits id sd l0 root_key cache f h =
      rw (root_seed_lem id sd l0 root_key f h, from_root, remember_value sd id l0 _ cache)

  -- A cache that differs from a genuine one at one place, where it holds what fits.
  pub write-IsGenuineCache :
      (cache cache' : KeyCache) (id : Uuid) (sd : Bytes) (l0 : ℕ) (key : GroupKeyEnvelope)
      → IsGenuineCache c d cache
      → Fits c d id sd l0 key
      → cache'.root_keys ≡ cache.root_keys
      → ((id' : Uuid) (sd' : Bytes) (l0' : ℕ)
          → cached cache' id' sd' l0'
            ≡ (if same_place id sd l0 id' sd' l0' then some key else cached cache id' sd' l0'))
      → IsGenuineCache c d cache'
  write-IsGenuineCache cache cache' id sd l0 key g f roots view = record {
    entries = λ id' sd' l0' rk found. elim (Bool-cases (same_place id sd l0 id' sd' l0')) [
      | inl same ↦
          let (a, b, e) = same_place-eq id sd l0 id' sd' l0' same in
          let here : some key ≡ some rk = rw (view id' sd' l0', same) at found in
          let held : rk ≡ key = sym (some-eq here) in rw (a, b, e, held) f
      | inr differ ↦ g.entries id' sd' l0' rk (rw (view id' sd' l0', differ) at found)
    ];
    roots = λ id' root_key found. g.roots id' root_key (rw roots at found);
  }
