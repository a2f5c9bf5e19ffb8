-- ===== src/Rpc/Bind.antt =====
-- What Bind, BindAck and BindNak of src/dpapi_ng/_rpc/_bind.py hold beside the header and the
-- security trailer, each with its part of pack and _unpack. AlterContext and AlterContextResponse
-- are Bind and BindAck with a packet type of their own.
pub mod RoundTrip
use dpapi_ng.Base.{
  ℕ, zero, suc, ◌+◌, ◌-◌, ◌*◌, ◌/◌, ◌%◌, Bool, not, ◌==◌, Option, none, some, List, [], ◌∷◌, ◌++◌,
  length, replicate, slice, take, drop, leb, index, map_result, if◌then◌else◌, Result, ok, err,
  key_error, ◌>>=◌,
}
use dpapi_ng.Bytes.{Bytes, join, from_le, to_bytes}
use dpapi_ng.Bytes.Text.{Text}
use dpapi_ng.Bytes.Utf8.{encode_utf8, decode_utf8}
use dpapi_ng.Bytes.Uuid.{Uuid, bytes_le, uuid_from_bytes_le}
use dpapi_ng.Rpc.Syntax.{
  ContextElement, pack_context, unpack_context, ContextResult, pack_result, unpack_result,
  unpack_parts,
}

pub record Bind : Type 0 where
  pub max_xmit_frag : ℕ
  pub max_recv_frag : ℕ
  pub assoc_group : ℕ
  pub contexts : List ContextElement

unfoldable pub pack_bind : Bind → Result Bytes
pack_bind b = do
  b_max_xmit_frag ← to_bytes 2 b.max_xmit_frag
  b_max_recv_frag ← to_bytes 2 b.max_recv_frag
  b_assoc_group ← to_bytes 4 b.assoc_group
  b_num_contexts ← to_bytes 4 (length b.contexts)
  b_contexts ← map_result pack_context b.contexts
  ok (
      join
        (b_max_xmit_frag ∷ b_max_recv_frag ∷ b_assoc_group ∷ b_num_contexts ∷ join b_contexts ∷ []))

-- `for _ in range(num_contexts)`: a context is as long as its transfer syntaxes make it
unfoldable pub unpack_contexts : ℕ → Bytes → Result (List ContextElement)
unpack_contexts zero view = ok []
unpack_contexts (suc n) view = do
  c ← unpack_context view
  contexts ← unpack_contexts n (drop (24 + length c.transfer_syntaxes * 20) view)
  ok (c ∷ contexts)

-- The number of contexts is read as one byte.
unfoldable pub unpack_bind : Bytes → Result Bind
unpack_bind view = do
  num_contexts ← index 8 view
  contexts ← unpack_contexts num_contexts (drop 12 view)
  ok (record {
    max_xmit_frag = from_le (slice 0 2 view);
    max_recv_frag = from_le (slice 2 4 view);
    assoc_group = from_le (slice 4 8 view);
    contexts = contexts;
  })

pub record BindAck : Type 0 where
  pub max_xmit_frag : ℕ
  pub max_recv_frag : ℕ
  pub assoc_group : ℕ
  pub sec_addr : Text
  pub results : List ContextResult

-- -n % 4
abbrev pub padding4 : ℕ → ℕ
padding4 n = (4 - n % 4) % 4

unfoldable pub sec_addr_bytes : Text → Result Bytes
sec_addr_bytes [] = ok []
sec_addr_bytes (c ∷ s) = do bs ← encode_utf8 (c ∷ s); ok (bs ++ (0 ∷ []))

unfoldable pub pack_bind_ack : BindAck → Result Bytes
pack_bind_ack b = do
  b_sec_addr ← sec_addr_bytes b.sec_addr
  b_result ← map_result pack_result b.results
  b_max_xmit_frag ← to_bytes 2 b.max_xmit_frag
  b_max_recv_frag ← to_bytes 2 b.max_recv_frag
  b_assoc_group ← to_bytes 4 b.assoc_group
  b_sec_addr_len ← to_bytes 2 (length b_sec_addr)
  b_num_results ← to_bytes 4 (length b.results)
  ok (
      join (
        b_max_xmit_frag
        ∷ b_max_recv_frag
        ∷ b_assoc_group
        ∷ b_sec_addr_len
        ∷ b_sec_addr
        ∷ replicate (padding4 (2 + length b_sec_addr)) 0
        ∷ b_num_results
        ∷ join b_result
        ∷ []))

-- view[10 : 10 + n - 1], which for n = 0 is view[10:9]
abbrev pub sec_addr_slice : ℕ → Bytes → Bytes
sec_addr_slice n view = take (n - 1) (drop 10 view)

unfoldable pub unpack_bind_ack : Bytes → Result BindAck
unpack_bind_ack view = do
  let sec_addr_len = from_le (slice 8 10 view)
  sec_addr ← decode_utf8 (sec_addr_slice sec_addr_len view)
  let view1 = drop (10 + sec_addr_len + padding4 (2 + sec_addr_len)) view
  num_result ← index 0 view1
  results ← unpack_parts unpack_result 24 num_result (drop 4 view1)
  ok (record {
    max_xmit_frag = from_le (slice 0 2 view);
    max_recv_frag = from_le (slice 2 4 view);
    assoc_group = from_le (slice 4 8 view);
    sec_addr = sec_addr;
    results = results;
  })

pub record BindNak : Type 0 where
  pub reject_reason : ℕ
  pub versions : List (ℕ × ℕ)

unfoldable pub pack_version : ℕ × ℕ → Result Bytes
pack_version (major, minor) = do
  b_major ← to_bytes 1 major
  b_minor ← to_bytes 1 minor
  ok (b_major ++ b_minor)

unfoldable pub pack_bind_nak : BindNak → Result Bytes
pack_bind_nak b = do
  protocols ← map_result pack_version b.versions
  b_num_protocols ← to_bytes 1 (length protocols)
  let b_versions = b_num_protocols ++ join protocols
  b_reject_reason ← to_bytes 2 b.reject_reason
  ok (join (b_reject_reason ∷ b_versions ∷ replicate (padding4 (2 + length b_versions)) 0 ∷ []))

unfoldable pub unpack_version : Bytes → Result (ℕ × ℕ)
unpack_version view = do major ← index 0 view; minor ← index 1 view; ok (major, minor)

unfoldable pub unpack_bind_nak : Bytes → Result BindNak
unpack_bind_nak view = do
  num_versions ← index 2 view
  versions ← unpack_parts unpack_version 2 num_versions (drop 3 view)
  ok (record { reject_reason = from_le (slice 0 2 view); versions = versions })
