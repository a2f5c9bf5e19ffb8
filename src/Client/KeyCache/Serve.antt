-- ===== src/Client/KeyCache/Serve.antt =====
-- _get_key and _store_key of src/dpapi_ng/_client.py on a cache of one domain.
use dpapi_ng.Base.{
  ℕ, ◌-◌, ◌^◌, ◌<◌, ◌≤◌, ◌≡◌, ap₂, sym, ◌∙◌, arith, ◌⊎◌, inl, inr, true, false, Option, none, some,
  lookup, or_else, Bool-cases, Option-cases, some-eq, nat_eq, Result, ok,
}
use dpapi_ng.Bytes.{Bytes}
use dpapi_ng.Bytes.Uuid.{Uuid, uuid_eq}
use dpapi_ng.Crypto.{Kdfs}
use dpapi_ng.Gkdi.Envelope.{GroupKeyEnvelope}
use dpapi_ng.Gkdi.Derive.{compute_l2_key}
use dpapi_ng.Gkdi.Derive.Chain.{Covers, l2_key_at}
use dpapi_ng.Gkdi.Derive.Correct.{compute_l2_key-chain}
use dpapi_ng.Client.KeyCache.{
  RootKey, KeyCache, enter, is_usable, is_newer, root_envelope, from_root, get_key, store_key,
}
use dpapi_ng.Client.KeyCache.View.{
  cached, cached-enter, root_keys-enter, cached-store_key, cached-remember, root_keys-remember,
  root_keys-store_key, get_key-usable, get_key-root,
}
use dpapi_ng.Client.KeyCache.Genuine.{
  Domain, Fits, FitsRoot, IsGenuineCache, root_envelope-Fits, from_root-Fits, write-IsGenuineCache,
}

module _ (c : Kdfs) (d : Domain) where
  enter-IsGenuineCache :
      (id : Uuid) (sd : Bytes) (cache : KeyCache)
      → IsGenuineCache c d cache
      → IsGenuineCache c d (enter id sd cache).0
  enter-IsGenuineCache id sd cache g = record {
    entries = λ id' sd' l0' rk found.
        g.entries id' sd' l0' rk (rw (cached-enter id id' sd sd' l0' cache) at found);
    roots = λ id' root_key found. g.roots id' root_key (rw (root_keys-enter id sd cache) at found);
  }

  -- What the place holds once the root key has been asked.
  or_else-Fits :
      (id : Uuid) (sd : Bytes) (l0 : ℕ) (root_key : RootKey) (cache : KeyCache)
      → IsGenuineCache c d cache
      → FitsRoot c d id root_key
      → l0 < 2 ^ 31
      → Fits c d id sd l0
          (or_else (cached cache id sd l0) (root_envelope root_key id l0 (d.seed id sd l0)))
  or_else-Fits id sd l0 root_key cache g f h = elim (Option-cases (cached cache id sd l0)) [
    | inl missing ↦ rw missing (root_envelope-Fits c d id sd l0 root_key f h)
    | inr (rk, found) ↦ rw found (g.entries id sd l0 rk found)
  ]

  from_root-IsGenuineCache :
      (id : Uuid) (sd : Bytes) (l0 : ℕ) (cache : KeyCache)
      → IsGenuineCache c d cache
      → l0 < 2 ^ 31
      → IsGenuineCache c d (from_root c sd id l0 (lookup id cache.root_keys) cache).0
  from_root-IsGenuineCache id sd l0 cache g h = elim (Option-cases (lookup id cache.root_keys)) [
    | inl missing ↦ rw missing (unfold from_root in g)
    | inr (root_key, found) ↦
        let f = g.roots id root_key found in
        rw (found, from_root-Fits c d id sd l0 root_key cache f h)
          (write-IsGenuineCache c d cache _ id sd l0 _ g
            (or_else-Fits id sd l0 root_key cache g f h) (root_keys-remember sd id l0 _ cache)
            (cached-remember sd id l0 _ cache))
  ]

  -- If the envelopes and root keys of a cache belong to one domain, then so do those of the
  -- cache that _get_key leaves for an L0 index below 2 ^ 31, whatever the indices are and
  -- whether or not it finds a key.
  pub get_key-IsGenuineCache :
      (id : Uuid) (sd : Bytes) (l0 l1 l2 : ℕ) (cache : KeyCache)
      → IsGenuineCache c d cache
      → l0 < 2 ^ 31
      → IsGenuineCache c d (get_key c sd id l0 l1 l2 cache).0
  unfolding get_key enter
  get_key-IsGenuineCache id sd l0 l1 l2 cache g h =
      elim (Bool-cases (is_usable (lookup l0 (enter id sd cache).1) l1 l2)) [
        | inl usable ↦ rw usable (enter-IsGenuineCache id sd cache g)
        | inr not_usable ↦
            rw (not_usable, ← root_keys-enter id sd cache)
              (from_root-IsGenuineCache id sd l0 (enter id sd cache).0
                (enter-IsGenuineCache id sd cache g) h)
      ]

  -- If the envelopes and root keys of a cache belong to one domain, and the key to be stored is
  -- the domain's for its root key, its L0 index and the descriptor, then the cache that
  -- _store_key leaves is again one of the domain.
  pub store_key-IsGenuineCache :
      (sd : Bytes) (key : GroupKeyEnvelope) (cache : KeyCache)
      → IsGenuineCache c d cache
      → Fits c d key.root_key_identifier sd key.l0 key
      → IsGenuineCache c d (store_key sd key cache)
  store_key-IsGenuineCache sd key cache g f =
      let id = key.root_key_identifier in
      let view = cached-store_key sd key cache in
      elim (Bool-cases (is_newer key (cached cache id sd key.l0))) [
        | inl newer ↦
            write-IsGenuineCache c d cache (store_key sd key cache) id sd key.l0 key g f
              (root_keys-store_key sd key cache) (λ id' sd' l0'. rw newer at (view id' sd' l0'))
        | inr older ↦ record {
          entries = λ id' sd' l0' rk found.
              let same : cached (store_key sd key cache) id' sd' l0' ≡ cached cache id' sd' l0' =
                rw older at (view id' sd' l0') in
              g.entries id' sd' l0' rk (sym same ∙ found);
          roots = λ id' root_key found.
              g.roots id' root_key (rw (root_keys-store_key sd key cache) at found);
        }
      ]

  -- A key that _get_key may serve: there is none in the cache for the place, or one at or above
  -- the request.
  abbrev pub Current : KeyCache → Uuid → Bytes → ℕ → ℕ → ℕ → Type 0
  Current cache id sd l0 l1 l2 =
      (cached cache id sd l0 ≡ none) ⊎ (is_usable (cached cache id sd l0) l1 l2 ≡ true)

  usable-Covers :
      (o : Option GroupKeyEnvelope) (rk : GroupKeyEnvelope) (l1 l2 : ℕ)
      → is_usable o l1 l2 ≡ true
      → o ≡ some rk
      → Covers rk.l1 rk.l2 l1 l2
  unfolding is_usable
  usable-Covers none rk l1 l2 h e = cc
  usable-Covers (some old) rk l1 l2 h e = rw (← some-eq e) (ground arith)

  pub none-usable : (o : Option GroupKeyEnvelope) (l1 l2 : ℕ) → o ≡ none → is_usable o l1 l2 ≡ false
  unfolding is_usable
  none-usable o l1 l2 e = rw e

  serve-root :
      (id : Uuid) (sd : Bytes) (l0 l1 l2 : ℕ) (cache : KeyCache) (root_key : RootKey)
      → IsGenuineCache c d cache
      → l0 < 2 ^ 31
      → cached cache id sd l0 ≡ none
      → lookup id cache.root_keys ≡ some root_key
      → (get_key c sd id l0 l1 l2 cache).1
        ≡ ok (some (root_envelope root_key id l0 (d.seed id sd l0)))
  serve-root id sd l0 l1 l2 cache root_key g h missing found = rw (
    get_key-root c id sd l0 l1 l2 cache (none-usable _ l1 l2 missing),
    found,
    from_root-Fits c d id sd l0 root_key (enter id sd cache).0 (g.roots id root_key found) h,
    cached-enter id id sd sd l0 cache,
    missing,
  )

  serve-nothing :
      (id : Uuid) (sd : Bytes) (l0 l1 l2 : ℕ) (cache : KeyCache)
      → cached cache id sd l0 ≡ none
      → lookup id cache.root_keys ≡ none
      → (get_key c sd id l0 l1 l2 cache).1 ≡ ok none
  unfolding from_root
  serve-nothing id sd l0 l1 l2 cache missing absent =
      rw (get_key-root c id sd l0 l1 l2 cache (none-usable _ l1 l2 missing), absent, from_root)

  ok-some-eq :
      {rk rk' : GroupKeyEnvelope} {r : Result (Option GroupKeyEnvelope)}
      → r ≡ ok (some rk')
      → r ≡ ok (some rk)
      → rk' ≡ rk
  ok-some-eq e e' = cc

  no-key :
      {rk : GroupKeyEnvelope} {r : Result (Option GroupKeyEnvelope)}
      → r ≡ ok none
      → r ≡ ok (some rk)
      → ⊥
  no-key e e' = cc

  pub root_envelope-Covers :
      (root_key : RootKey) (id : Uuid) (l0 l1 l2 : ℕ) (seed : Bytes)
      → l1 ≤ 31
      → l2 ≤ 31
      → Covers (root_envelope root_key id l0 seed).l1 (root_envelope root_key id l0 seed).l2 l1 l2
  unfolding root_envelope
  root_envelope-Covers root_key id l0 l1 l2 seed h1 h2 = ground arith

  pub get_key_serves :
      (id : Uuid) (sd : Bytes) (l0 l1 l2 : ℕ) (cache : KeyCache) (rk : GroupKeyEnvelope)
      → IsGenuineCache c d cache
      → l0 < 2 ^ 31
      → l1 ≤ 31
      → l2 ≤ 31
      → Current cache id sd l0 l1 l2
      → (get_key c sd id l0 l1 l2 cache).1 ≡ ok (some rk)
      → Fits c d id sd l0 rk × Covers rk.l1 rk.l2 l1 l2
  get_key_serves id sd l0 l1 l2 cache rk g h0 h1 h2 (inr usable) e =
      let there : cached cache id sd l0 ≡ some rk =
        let same = get_key-usable c id sd l0 l1 l2 cache usable in cc in
      (g.entries id sd l0 rk there, usable-Covers _ rk l1 l2 usable there)
  get_key_serves id sd l0 l1 l2 cache rk g h0 h1 h2 (inl missing) e =
      elim (Option-cases (lookup id cache.root_keys)) [
        | inl absent ↦ absurd (no-key (serve-nothing id sd l0 l1 l2 cache missing absent) e)
        | inr (root_key, found) ↦
            let served = serve-root id sd l0 l1 l2 cache root_key g h0 missing found in
            rw (← ok-some-eq served e) (
              root_envelope-Fits c d id sd l0 root_key (g.roots id root_key found) h0,
              root_envelope-Covers root_key id l0 l1 l2 (d.seed id sd l0) h1 h2,
            )
      ]

  pub Fits-key :
      (id : Uuid) (sd : Bytes) (l0 l1 l2 : ℕ) (rk : GroupKeyEnvelope)
      → Fits c d id sd l0 rk
      → Covers rk.l1 rk.l2 l1 l2
      → l2 ≤ 31
      → compute_l2_key c (d.algorithm id) rk l1 l2
        ≡ ok (l2_key_at c (d.algorithm id) id l0 (d.seed id sd l0) (31 - l1) (31 - l2))
  Fits-key id sd l0 l1 l2 rk f covers h2 =
      let key =
        compute_l2_key-chain c (d.algorithm id) (d.seed id sd l0) rk l1 l2 f.genuine covers h2 in
      key
      ∙ ap₂ (λ i n. ok (l2_key_at c (d.algorithm id) i n (d.seed id sd l0) (31 - l1) (31 - l2)))
          f.id_same f.l0_same

  -- From a cache whose envelopes and root keys belong to one domain, for an L0 index below 2 ^
  -- 31 and L1 and L2 indices of 31 at most, where the place of the request is empty or holds a
  -- key at or above it: compute_l2_key on an envelope that _get_key returns gives the key of
  -- the domain's hierarchy at the requested indices.
  pub compute_l2_key-get_key :
      (id : Uuid) (sd : Bytes) (l0 l1 l2 : ℕ) (cache : KeyCache) (rk : GroupKeyEnvelope)
      → IsGenuineCache c d cache
      → l0 < 2 ^ 31
      → l1 ≤ 31
      → l2 ≤ 31
      → Current cache id sd l0 l1 l2
      → (get_key c sd id l0 l1 l2 cache).1 ≡ ok (some rk)
      → compute_l2_key c (d.algorithm id) rk l1 l2
        ≡ ok (l2_key_at c (d.algorithm id) id l0 (d.seed id sd l0) (31 - l1) (31 - l2))
  compute_l2_key-get_key id sd l0 l1 l2 cache rk g h0 h1 h2 current e =
      let (f, covers) = get_key_serves id sd l0 l1 l2 cache rk g h0 h1 h2 current e in
      Fits-key id sd l0 l1 l2 rk f covers h2
