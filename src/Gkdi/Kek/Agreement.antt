-- ===== src/Gkdi/Kek/Agreement.antt =====
-- compute_kek and compute_public_key of src/dpapi_ng/_gkdi.py for the two sides of a
-- Diffie-Hellman exchange.
use native.Mathlib.Nat.{mod-lt}
use dpapi_ng.Base.{ℕ, ◌%◌, ◌^◌, ◌<◌, ◌≡◌, ◌∙◌, arith, pow_agree, false, ◌==◌, ok, ◌>>=◌, >>=-eq-ok}
use dpapi_ng.Bytes.RoundTrip.{to_bytes_be-ok}
use dpapi_ng.Base.{reverse}
use dpapi_ng.Bytes.{Bytes, le_bytes, from_be, to_bytes_be}
use dpapi_ng.Bytes.Text.{text}
use dpapi_ng.Crypto.{HashAlgorithm, Kdfs, sha256}
use dpapi_ng.Gkdi.PublicKey.Ffcdh.{FfcdhKey, FitsKey, pack_key, unpack_key, unpack-pack_key}
use dpapi_ng.Gkdi.Kek.{
  Curves, pow_mod, dh_secret, dh_public_key, agreed_secret, secret_kek, compute_kek,
  compute_public_key,
}

-- A group with the key length of its numbers: the domain of the DH structures.
pub record IsGroup (n p g : ℕ) : Type 0 where
  pub key_length : n < 256 ^ 4
  pub positive : 0 < p
  pub field_order : p < 256 ^ n
  pub generator : g < 256 ^ n

-- The public key of a private key in a group.
abbrev pub public_of : ℕ → ℕ → ℕ → Bytes → FfcdhKey
public_of n p g private_key = record {
  key_length = n;
  field_order = p;
  generator = g;
  public_key = g ^ from_be private_key % p;
}

module _ (n p g : ℕ) (group : IsGroup n p g) where
  below : (a : ℕ) → a % p < 256 ^ n
  below a = omega (arith, mod-lt a group.positive, group.field_order)

  public_of-fits : (private_key : Bytes) → FitsKey (public_of n p g private_key)
  public_of-fits private_key = record {
    key_length = group.key_length;
    field_order = group.field_order;
    generator = group.generator;
    public_key = below (g ^ from_be private_key);
  }

  unpacked :
      (private_key packed : Bytes)
      → pack_key (public_of n p g private_key) ≡ ok packed
      → unpack_key packed ≡ ok (public_of n p g private_key)
  unpacked private_key packed e =
      rw e at (unpack-pack_key (public_of n p g private_key) (public_of-fits private_key))

  pow_mod-ok : (a e : ℕ) → pow_mod a e p ≡ ok (a ^ e % p)
  unfolding pow_mod
  pow_mod-ok a e = let h : (p == 0) ≡ false = let q = group.positive in ground arith in rw h

  -- Our public key is that of our private key in the group of the peer's.
  pub dh_public_key-eq :
      (c : Kdfs) (ec : Curves) (x r packed : Bytes)
      → pack_key (public_of n p g x) ≡ ok packed
      → dh_public_key c ec r packed ≡ pack_key (public_of n p g r)
  unfolding dh_public_key
  dh_public_key-eq c ec x r packed e = rw (unpacked x packed e, pow_mod-ok g (from_be r))

  dh_secret-eq :
      (c : Kdfs) (ec : Curves) (x r packed : Bytes)
      → pack_key (public_of n p g x) ≡ ok packed
      → dh_secret c ec r packed
        ≡ (to_bytes_be n ((g ^ from_be x % p) ^ from_be r % p) >>= λ s. ok (s, sha256))
  unfolding dh_secret
  dh_secret-eq c ec x r packed e =
      rw (unpacked x packed e, pow_mod-ok (g ^ from_be x % p) (from_be r))

  dh_secret-ok :
      (c : Kdfs) (ec : Curves) (x r packed : Bytes)
      → pack_key (public_of n p g x) ≡ ok packed
      → dh_secret c ec r packed
        ≡ ok (reverse (le_bytes n ((g ^ from_be x % p) ^ from_be r % p)), sha256)
  dh_secret-ok c ec x r packed e =
      rw (
        dh_secret-eq c ec x r packed e,
        to_bytes_be-ok n _ (below ((g ^ from_be x % p) ^ from_be r)),
      )

  -- For two private keys of one group and the packed public keys that belong to them, both sides
  -- compute the same shared secret.
  pub dh_secret-agree :
      (c : Kdfs) (ec : Curves) (x r packed_x packed_r : Bytes)
      → pack_key (public_of n p g x) ≡ ok packed_x
      → pack_key (public_of n p g r) ≡ ok packed_r
      → dh_secret c ec r packed_x ≡ dh_secret c ec x packed_r
  dh_secret-agree c ec x r packed_x packed_r ex er = rw (
    dh_secret-eq c ec x r packed_x ex,
    dh_secret-eq c ec r x packed_r er,
    pow_agree g (from_be x) (from_be r) p,
  )

  -- In a DH group whose numbers fit the key length, for the packed public key of a private key
  -- x and any private key r: compute_public_key and compute_kek with r succeed, and compute_kek
  -- with x and the public key of r returns the same key.
  pub compute_kek-agree :
      (c : Kdfs) (ec : Curves) (algorithm : HashAlgorithm) (x r packed_x : Bytes)
      → pack_key (public_of n p g x) ≡ ok packed_x
      → (kek : Bytes) × (packed_r : Bytes) × (compute_public_key c ec (text "DH") r packed_x
          ≡ ok packed_r)
        × (compute_kek c ec algorithm (text "DH") r packed_x ≡ ok kek)
        × (compute_kek c ec algorithm (text "DH") x packed_r ≡ ok kek)
  unfolding compute_kek compute_public_key agreed_secret
  compute_kek-agree c ec algorithm x r packed_x ex =
      let (packed_r, er, _) =
        >>=-eq-ok (pack_key (public_of n p g r)) unpack_key
          (unpack-pack_key _ (public_of-fits r)) in
      let shared = dh_secret-ok c ec x r packed_x ex in
      let kek =
        secret_kek c ec algorithm
          (reverse (le_bytes n ((g ^ from_be x % p) ^ from_be r % p)), sha256) in
      (
        kek,
        packed_r,
        dh_public_key-eq c ec x r packed_x ex ∙ er,
        rw shared,
        rw (← dh_secret-agree c ec x r packed_x packed_r ex er, shared),
      )
