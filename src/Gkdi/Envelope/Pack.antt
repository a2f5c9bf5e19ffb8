-- ===== src/Gkdi/Envelope/Pack.antt =====
-- GroupKeyEnvelope.pack and GroupKeyEnvelope.unpack of src/dpapi_ng/_gkdi.py.
use dpapi_ng.Base.{
  ℕ, not, [], ◌∷◌, ◌++◌, length, slice, take, drop, take_less, if◌then◌else◌, bytes_eq, Result, ok,
  err, ◌>>=◌, value_error,
}
use dpapi_ng.Bytes.{Bytes, join, from_le, to_bytes}
use dpapi_ng.Bytes.Uuid.{bytes_le, uuid_from_bytes_le}
use dpapi_ng.Bytes.Text.{Text, encode_utf16, decode_utf16}
use dpapi_ng.Gkdi.Envelope.{GroupKeyEnvelope}

abbrev pub magic : Bytes
magic = 0x4b ∷ 0x44 ∷ 0x53 ∷ 0x4b ∷ []

unfoldable pub pack : GroupKeyEnvelope → Result Bytes
pack k = do
  b_kdf_algorithm ← encode_utf16 (k.kdf_algorithm ++ (0 ∷ []))
  b_secret_algorithm ← encode_utf16 (k.secret_algorithm ++ (0 ∷ []))
  b_domain_name ← encode_utf16 (k.domain_name ++ (0 ∷ []))
  b_forest_name ← encode_utf16 (k.forest_name ++ (0 ∷ []))
  b_version ← to_bytes 4 k.version
  b_flags ← to_bytes 4 k.flags
  b_l0 ← to_bytes 4 k.l0
  b_l1 ← to_bytes 4 k.l1
  b_l2 ← to_bytes 4 k.l2
  kdf_algo_len ← to_bytes 4 (length b_kdf_algorithm)
  kdf_para_len ← to_bytes 4 (length k.kdf_parameters)
  sec_algo_len ← to_bytes 4 (length b_secret_algorithm)
  sec_para_len ← to_bytes 4 (length k.secret_parameters)
  priv_key_len ← to_bytes 4 k.private_key_length
  publ_key_len ← to_bytes 4 k.public_key_length
  l1_key_len ← to_bytes 4 (length k.l1_key)
  l2_key_len ← to_bytes 4 (length k.l2_key)
  domain_len ← to_bytes 4 (length b_domain_name)
  forest_len ← to_bytes 4 (length b_forest_name)
  ok (
      join (
        b_version
        ∷ magic
        ∷ b_flags
        ∷ b_l0
        ∷ b_l1
        ∷ b_l2
        ∷ bytes_le k.root_key_identifier
        ∷ kdf_algo_len
        ∷ kdf_para_len
        ∷ sec_algo_len
        ∷ sec_para_len
        ∷ priv_key_len
        ∷ publ_key_len
        ∷ l1_key_len
        ∷ l2_key_len
        ∷ domain_len
        ∷ forest_len
        ∷ b_kdf_algorithm
        ∷ k.kdf_parameters
        ∷ b_secret_algorithm
        ∷ k.secret_parameters
        ∷ b_domain_name
        ∷ b_forest_name
        ∷ k.l1_key
        ∷ k.l2_key
        ∷ []))

-- The fields of variable length, each behind the one before it.
pub record Tail : Type 0 where
  pub kdf_algo : Text
  pub kdf_param : Bytes
  pub secret_algo : Text
  pub secret_param : Bytes
  pub domain : Text
  pub forest : Text
  pub l1_key : Bytes
  pub l2_key : Bytes

-- Their lengths, in the order of the fields.
pub record Lengths : Type 0 where
  pub kdf_algo : ℕ
  pub kdf_para : ℕ
  pub sec_algo : ℕ
  pub sec_para : ℕ
  pub domain : ℕ
  pub forest : ℕ
  pub l1_key : ℕ
  pub l2_key : ℕ

-- view[: n - 2].tobytes().decode("utf-16-le"), and view[n:]
unfoldable pub take_name : ℕ → Bytes → Result (Text × Bytes)
take_name n view = do name ← decode_utf16 (take_less n 2 view); ok (name, drop n view)

unfoldable pub unpack_tail : Lengths → Bytes → Result Tail
unpack_tail n view = do
  (kdf_algo, view1) ← take_name n.kdf_algo view
  let kdf_param = take n.kdf_para view1
  (secret_algo, view2) ← take_name n.sec_algo (drop n.kdf_para view1)
  let secret_param = take n.sec_para view2
  (domain, view3) ← take_name n.domain (drop n.sec_para view2)
  (forest, view4) ← take_name n.forest view3
  ok (record {
    kdf_algo = kdf_algo;
    kdf_param = kdf_param;
    secret_algo = secret_algo;
    secret_param = secret_param;
    domain = domain;
    forest = forest;
    l1_key = take n.l1_key view4;
    l2_key = take n.l2_key (drop n.l1_key view4);
  })

unfoldable pub lengths_of : Bytes → Lengths
lengths_of view = record {
  kdf_algo = from_le (slice 40 44 view);
  kdf_para = from_le (slice 44 48 view);
  sec_algo = from_le (slice 48 52 view);
  sec_para = from_le (slice 52 56 view);
  domain = from_le (slice 72 76 view);
  forest = from_le (slice 76 80 view);
  l1_key = from_le (slice 64 68 view);
  l2_key = from_le (slice 68 72 view);
}

unfoldable pub unpack : Bytes → Result GroupKeyEnvelope
unpack view = if not (bytes_eq (slice 4 8 view) magic) then err value_error else do
  root_key_identifier ← uuid_from_bytes_le (slice 24 40 view)
  tail ← unpack_tail (lengths_of view) (drop 80 view)
  ok (record {
    version = from_le (slice 0 4 view);
    flags = from_le (slice 8 12 view);
    l0 = from_le (slice 12 16 view);
    l1 = from_le (slice 16 20 view);
    l2 = from_le (slice 20 24 view);
    root_key_identifier = root_key_identifier;
    kdf_algorithm = tail.kdf_algo;
    kdf_parameters = tail.kdf_param;
    secret_algorithm = tail.secret_algo;
    secret_parameters = tail.secret_param;
    private_key_length = from_le (slice 56 60 view);
    public_key_length = from_le (slice 60 64 view);
    domain_name = tail.domain;
    forest_name = tail.forest;
    l1_key = tail.l1_key;
    l2_key = tail.l2_key;
  })
