-- ===== src/Gkdi/Envelope/RoundTrip.antt =====
-- GroupKeyEnvelope of src/dpapi_ng/_gkdi.py: the bytes of pack, read by unpack.
use dpapi_ng.Base.{◌^◌, ◌<◌, ◌≡◌, [], ◌∷◌, ◌++◌, length, All, take-append, drop-append, ok, ◌>>=◌}
use dpapi_ng.Bytes.{Bytes, join, le_bytes}
use dpapi_ng.Bytes.RoundTrip.{from_le-le_bytes, to_bytes-ok}
use dpapi_ng.Bytes.Uuid.{IsUuid, bytes_le, uuid_from_bytes_le-bytes_le}
use dpapi_ng.Bytes.Text.{Text, IsChar}
use dpapi_ng.Bytes.Names.{name_bytes, encode-name, decode-name}
use dpapi_ng.Gkdi.Envelope.{GroupKeyEnvelope}
use dpapi_ng.Gkdi.Envelope.Pack.{
  magic, pack, Tail, Lengths, take_name, unpack_tail, lengths_of, unpack,
}

pub record IsValid (k : GroupKeyEnvelope) : Type 0 where
  pub version : k.version < 256 ^ 4
  pub flags : k.flags < 256 ^ 4
  pub l0 : k.l0 < 256 ^ 4
  pub l1 : k.l1 < 256 ^ 4
  pub l2 : k.l2 < 256 ^ 4
  pub root_key_identifier : IsUuid k.root_key_identifier
  pub kdf_algorithm : All IsChar k.kdf_algorithm
  pub kdf_algo_len : length (name_bytes k.kdf_algorithm) < 256 ^ 4
  pub kdf_para_len : length k.kdf_parameters < 256 ^ 4
  pub secret_algorithm : All IsChar k.secret_algorithm
  pub sec_algo_len : length (name_bytes k.secret_algorithm) < 256 ^ 4
  pub sec_para_len : length k.secret_parameters < 256 ^ 4
  pub private_key_length : k.private_key_length < 256 ^ 4
  pub public_key_length : k.public_key_length < 256 ^ 4
  pub domain_name : All IsChar k.domain_name
  pub domain_len : length (name_bytes k.domain_name) < 256 ^ 4
  pub forest_name : All IsChar k.forest_name
  pub forest_len : length (name_bytes k.forest_name) < 256 ^ 4
  pub l1_key_len : length k.l1_key < 256 ^ 4
  pub l2_key_len : length k.l2_key < 256 ^ 4

-- The fields of variable length as they are written.
tail_layout : GroupKeyEnvelope → Bytes
tail_layout k = join (
    name_bytes k.kdf_algorithm
    ∷ k.kdf_parameters
    ∷ name_bytes k.secret_algorithm
    ∷ k.secret_parameters
    ∷ name_bytes k.domain_name
    ∷ name_bytes k.forest_name
    ∷ k.l1_key
    ∷ k.l2_key
    ∷ [])

fixed_layout : GroupKeyEnvelope → Bytes → Bytes
fixed_layout k rest =
    le_bytes 4 k.version
    ++ (magic
        ++ (le_bytes 4 k.flags
            ++ (le_bytes 4 k.l0
                ++ (le_bytes 4 k.l1
                    ++ (le_bytes 4 k.l2
                        ++ (bytes_le k.root_key_identifier
                            ++ (le_bytes 4 (length (name_bytes k.kdf_algorithm))
                                ++ (le_bytes 4 (length k.kdf_parameters)
                                    ++ (le_bytes 4 (length (name_bytes k.secret_algorithm))
                                        ++ (le_bytes 4 (length k.secret_parameters)
                                            ++ (le_bytes 4 k.private_key_length
                                                ++ (le_bytes 4 k.public_key_length
                                                    ++ (le_bytes 4 (length k.l1_key)
                                                        ++ (le_bytes 4 (length k.l2_key)
                                                            ++ (le_bytes 4
                                                            (length (name_bytes k.domain_name))
                                                            ++ (le_bytes 4
                                                            (length (name_bytes k.forest_name))
                                                            ++ rest))))))))))))))))

pack-layout : (k : GroupKeyEnvelope) → IsValid k → pack k ≡ ok (fixed_layout k (tail_layout k))
unfolding pack fixed_layout tail_layout
pack-layout k h = rw (
  encode-name k.kdf_algorithm h.kdf_algorithm,
  encode-name k.secret_algorithm h.secret_algorithm,
  encode-name k.domain_name h.domain_name,
  encode-name k.forest_name h.forest_name,
  to_bytes-ok 4 k.version h.version,
  to_bytes-ok 4 k.flags h.flags,
  to_bytes-ok 4 k.l0 h.l0,
  to_bytes-ok 4 k.l1 h.l1,
  to_bytes-ok 4 k.l2 h.l2,
  to_bytes-ok 4 _ h.kdf_algo_len,
  to_bytes-ok 4 _ h.kdf_para_len,
  to_bytes-ok 4 _ h.sec_algo_len,
  to_bytes-ok 4 _ h.sec_para_len,
  to_bytes-ok 4 k.private_key_length h.private_key_length,
  to_bytes-ok 4 k.public_key_length h.public_key_length,
  to_bytes-ok 4 _ h.l1_key_len,
  to_bytes-ok 4 _ h.l2_key_len,
  to_bytes-ok 4 _ h.domain_len,
  to_bytes-ok 4 _ h.forest_len,
)

abbrev tail_of : GroupKeyEnvelope → Tail
tail_of k = record {
  kdf_algo = k.kdf_algorithm;
  kdf_param = k.kdf_parameters;
  secret_algo = k.secret_algorithm;
  secret_param = k.secret_parameters;
  domain = k.domain_name;
  forest = k.forest_name;
  l1_key = k.l1_key;
  l2_key = k.l2_key;
}

abbrev packed_lengths : GroupKeyEnvelope → Lengths
packed_lengths k = record {
  kdf_algo = length (name_bytes k.kdf_algorithm);
  kdf_para = length k.kdf_parameters;
  sec_algo = length (name_bytes k.secret_algorithm);
  sec_para = length k.secret_parameters;
  domain = length (name_bytes k.domain_name);
  forest = length (name_bytes k.forest_name);
  l1_key = length k.l1_key;
  l2_key = length k.l2_key;
}

take_name_lem :
    (s : Text) (rest : Bytes)
    → All IsChar s
    → take_name (length (name_bytes s)) (name_bytes s ++ rest) ≡ ok (s, rest)
unfolding take_name
take_name_lem s rest h = rw (decode-name s rest h, drop-append (name_bytes s) rest)

unpack_tail-layout :
    (k : GroupKeyEnvelope)
    → IsValid k
    → unpack_tail (packed_lengths k) (tail_layout k) ≡ ok (tail_of k)
unfolding unpack_tail tail_layout
unpack_tail-layout k h = rw (
  take_name_lem k.kdf_algorithm _ h.kdf_algorithm,
  take-append k.kdf_parameters,
  drop-append k.kdf_parameters,
  take_name_lem k.secret_algorithm _ h.secret_algorithm,
  take-append k.secret_parameters,
  drop-append k.secret_parameters,
  take_name_lem k.domain_name _ h.domain_name,
  take_name_lem k.forest_name _ h.forest_name,
  take-append k.l1_key,
  drop-append k.l1_key,
  take-append k.l2_key [],
)

lengths-layout :
    (k : GroupKeyEnvelope) (rest : Bytes)
    → IsValid k
    → lengths_of (fixed_layout k rest) ≡ packed_lengths k
unfolding lengths_of fixed_layout
lengths-layout k rest h = rw (
  from_le-le_bytes 4 _ h.kdf_algo_len,
  from_le-le_bytes 4 _ h.kdf_para_len,
  from_le-le_bytes 4 _ h.sec_algo_len,
  from_le-le_bytes 4 _ h.sec_para_len,
  from_le-le_bytes 4 _ h.domain_len,
  from_le-le_bytes 4 _ h.forest_len,
  from_le-le_bytes 4 _ h.l1_key_len,
  from_le-le_bytes 4 _ h.l2_key_len,
)

unpack-layout : (k : GroupKeyEnvelope) → IsValid k → unpack (fixed_layout k (tail_layout k)) ≡ ok k
unfolding unpack
unpack-layout k h = rw (lengths-layout k (tail_layout k) h) (
    unfold fixed_layout in
    rw (
      uuid_from_bytes_le-bytes_le k.root_key_identifier h.root_key_identifier,
      unpack_tail-layout k h,
      from_le-le_bytes 4 k.version h.version,
      from_le-le_bytes 4 k.flags h.flags,
      from_le-le_bytes 4 k.l0 h.l0,
      from_le-le_bytes 4 k.l1 h.l1,
      from_le-le_bytes 4 k.l2 h.l2,
      from_le-le_bytes 4 k.private_key_length h.private_key_length,
      from_le-le_bytes 4 k.public_key_length h.public_key_length,
    ))

-- A group key envelope whose numbers fit 32 bits, whose names are encodable and whose parts are
-- shorter than 4 GiB is packed without an error, and unpack returns it unchanged.
pub unpack-pack_envelope : (k : GroupKeyEnvelope) → IsValid k → (pack k >>= unpack) ≡ ok k
unpack-pack_envelope k h = rw (pack-layout k h) (unpack-layout k h)
