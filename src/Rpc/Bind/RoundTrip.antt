-- ===== src/Rpc/Bind/RoundTrip.antt =====
-- Bind, BindAck and BindNak of src/dpapi_ng/_rpc/_bind.py: the bytes of pack, read by _unpack.
use dpapi_ng.Base.{
  ℕ, ◌+◌, ◌-◌, ◌%◌, ◌^◌, ◌<◌, ◌≡◌, refl, arith, List, [], ◌∷◌, ◌++◌, map, append-nil, append_assoc,
  length, length-map, length-append, replicate, take, drop-add, drop-append, drop-replicate,
  take-append, ok, All,
}
use dpapi_ng.Bytes.{Bytes, join, le_bytes}
use dpapi_ng.Bytes.RoundTrip.{from_le-le_bytes, to_bytes-ok, to_bytes-byte}
use dpapi_ng.Bytes.Text.{Text, IsChar}
use dpapi_ng.Bytes.Utf8.{utf8_bytes, encode_utf8-ok, decode_utf8, decode_utf8-utf8_bytes}
use dpapi_ng.Rpc.Syntax.{ContextElement, pack_context, pack_result, unpack_result}
use dpapi_ng.Rpc.Syntax.RoundTrip.{
  FitsContext, context_layout, pack_context-layout, unpack_context-layout, length-context_layout,
  FitsResult, result_layout, pack_result-layout, unpack_result-layout, drop-result,
  map_result-layout, unpack_parts-layout,
}
use dpapi_ng.Rpc.Bind.{
  Bind, pack_bind, unpack_contexts, unpack_bind, BindAck, padding4, sec_addr_bytes, pack_bind_ack,
  unpack_bind_ack, BindNak, pack_version, pack_bind_nak, unpack_version, unpack_bind_nak,
}

-- At most 255 contexts, which is as many as unpack reads.
pub record FitsBind (b : Bind) : Type 0 where
  pub max_xmit_frag : b.max_xmit_frag < 256 ^ 2
  pub max_recv_frag : b.max_recv_frag < 256 ^ 2
  pub assoc_group : b.assoc_group < 256 ^ 4
  pub num_contexts : length b.contexts < 256
  pub contexts : All FitsContext b.contexts

unfoldable pub bind_layout : Bind → Bytes
bind_layout b =
    le_bytes 2 b.max_xmit_frag
    ++ (le_bytes 2 b.max_recv_frag
        ++ (le_bytes 4 b.assoc_group
            ++ (le_bytes 4 (length b.contexts) ++ join (map context_layout b.contexts))))

pub pack_bind-layout : (b : Bind) → FitsBind b → pack_bind b ≡ ok (bind_layout b)
unfolding pack_bind bind_layout
pack_bind-layout b h =
    let small : length b.contexts < 256 ^ 4 = let q = h.num_contexts in omega arith in
    rw (
      to_bytes-ok 2 b.max_xmit_frag h.max_xmit_frag,
      to_bytes-ok 2 b.max_recv_frag h.max_recv_frag,
      to_bytes-ok 4 b.assoc_group h.assoc_group,
      to_bytes-ok 4 _ small,
      map_result-layout FitsContext context_layout 0 pack_context pack_context-layout b.contexts
          h.contexts,
      append-nil,
    )

unpack_contexts-layout :
    (cs : List ContextElement) (rest : Bytes)
    → All FitsContext cs
    → unpack_contexts (length cs) (join (map context_layout cs) ++ rest) ≡ ok cs
unfolding unpack_contexts
unpack_contexts-layout [] rest h = refl
unpack_contexts-layout (c ∷ cs) rest (hc, hs) = rw (
  append_assoc (context_layout c) (join (map context_layout cs)) rest,
  unpack_context-layout c _ hc,
  ← length-context_layout c,
  drop-append (context_layout c) (join (map context_layout cs) ++ rest),
  unpack_contexts-layout cs rest hs,
)

byte_of : (n : ℕ) → n < 256 → n % 256 ≡ n
byte_of n h = omega arith

pub unpack_bind-layout : (b : Bind) → FitsBind b → unpack_bind (bind_layout b) ≡ ok b
unfolding unpack_bind bind_layout
unpack_bind-layout b h =
    let contexts = unpack_contexts-layout b.contexts [] h.contexts in
    rw (
      byte_of _ h.num_contexts,
      rw append-nil at contexts,
      from_le-le_bytes 2 b.max_xmit_frag h.max_xmit_frag,
      from_le-le_bytes 2 b.max_recv_frag h.max_recv_frag,
      from_le-le_bytes 4 b.assoc_group h.assoc_group,
    )

-- The address as it is stored: nothing, or the text with a null byte behind.
abbrev pub addr_bytes : Text → Bytes
addr_bytes [] = []
addr_bytes (c ∷ s) = utf8_bytes (c ∷ s) ++ (0 ∷ [])

sec_addr_bytes-ok : (s : Text) → All IsChar s → sec_addr_bytes s ≡ ok (addr_bytes s)
unfolding sec_addr_bytes
sec_addr_bytes-ok [] h = refl
sec_addr_bytes-ok (c ∷ s) h = rw (encode_utf8-ok (c ∷ s) h)

take-null : (bs rest : Bytes) → take (length (bs ++ (0 ∷ [])) - 1) ((bs ++ (0 ∷ [])) ++ rest) ≡ bs
take-null bs rest =
    let e : length (bs ++ (0 ∷ [])) - 1 ≡ length bs = omega (arith, length-append bs (0 ∷ [])) in
    rw (e, append_assoc bs (0 ∷ []) rest) (take-append bs (0 ∷ rest))

addr-read :
    (s : Text) (rest : Bytes)
    → All IsChar s
    → decode_utf8 (take (length (addr_bytes s) - 1) (addr_bytes s ++ rest)) ≡ ok s
addr-read [] rest h = decode_utf8-utf8_bytes [] tt
addr-read (c ∷ s) rest h =
    rw (take-null (utf8_bytes (c ∷ s)) rest) (decode_utf8-utf8_bytes (c ∷ s) h)

-- At most 255 results, which is as many as unpack reads.
pub record FitsBindAck (b : BindAck) : Type 0 where
  pub max_xmit_frag : b.max_xmit_frag < 256 ^ 2
  pub max_recv_frag : b.max_recv_frag < 256 ^ 2
  pub assoc_group : b.assoc_group < 256 ^ 4
  pub sec_addr : All IsChar b.sec_addr
  pub sec_addr_len : length (addr_bytes b.sec_addr) < 256 ^ 2
  pub num_results : length b.results < 256
  pub results : All FitsResult b.results

pub bind_ack_layout : BindAck → Bytes
bind_ack_layout b =
    le_bytes 2 b.max_xmit_frag
    ++ (le_bytes 2 b.max_recv_frag
        ++ (le_bytes 4 b.assoc_group
            ++ (le_bytes 2 (length (addr_bytes b.sec_addr))
                ++ (addr_bytes b.sec_addr
                    ++ (replicate (padding4 (2 + length (addr_bytes b.sec_addr))) 0
                        ++ (le_bytes 4 (length b.results)
                            ++ join (map result_layout b.results)))))))

pub pack_bind_ack-layout : (b : BindAck) → FitsBindAck b → pack_bind_ack b ≡ ok (bind_ack_layout b)
unfolding pack_bind_ack bind_ack_layout
pack_bind_ack-layout b h =
    let small : length b.results < 256 ^ 4 = let q = h.num_results in omega arith in
    rw (
      sec_addr_bytes-ok b.sec_addr h.sec_addr,
      map_result-layout FitsResult result_layout 24 pack_result pack_result-layout b.results
          h.results,
      to_bytes-ok 2 b.max_xmit_frag h.max_xmit_frag,
      to_bytes-ok 2 b.max_recv_frag h.max_recv_frag,
      to_bytes-ok 4 b.assoc_group h.assoc_group,
      to_bytes-ok 2 _ h.sec_addr_len,
      to_bytes-ok 4 _ small,
      append-nil,
    )

pub unpack_bind_ack-layout :
    (b : BindAck) → FitsBindAck b → unpack_bind_ack (bind_ack_layout b) ≡ ok b
unfolding unpack_bind_ack bind_ack_layout
unpack_bind_ack-layout b h =
    let addr = addr_bytes b.sec_addr in
    let n = length addr in
    let results =
      unpack_parts-layout FitsResult result_layout 24 unpack_result unpack_result-layout drop-result
        b.results [] h.results in
    rw (
      from_le-le_bytes 2 n h.sec_addr_len,
      addr-read b.sec_addr _ h.sec_addr,
      drop-add (10 + n) (padding4 (2 + n)),
      drop-add 10 n,
      drop-append addr,
      drop-replicate {A = ℕ} (padding4 (2 + n)) 0 _,
      byte_of _ h.num_results,
      rw append-nil at results,
      from_le-le_bytes 2 b.max_xmit_frag h.max_xmit_frag,
      from_le-le_bytes 2 b.max_recv_frag h.max_recv_frag,
      from_le-le_bytes 4 b.assoc_group h.assoc_group,
    )

abbrev FitsVersion : ℕ × ℕ → Type 0
FitsVersion (major, minor) = (major < 256) × (minor < 256)

abbrev version_layout : ℕ × ℕ → Bytes
version_layout (major, minor) = major ∷ minor ∷ []

pub record FitsBindNak (b : BindNak) : Type 0 where
  pub reject_reason : b.reject_reason < 256 ^ 2
  pub num_versions : length b.versions < 256
  pub versions : All FitsVersion b.versions

pub bind_nak_layout : BindNak → Bytes
bind_nak_layout b =
    let b_versions = length b.versions ∷ join (map version_layout b.versions) in
    le_bytes 2 b.reject_reason ++ (b_versions ++ replicate (padding4 (2 + length b_versions)) 0)

pack_version-layout : (v : ℕ × ℕ) → FitsVersion v → pack_version v ≡ ok (version_layout v)
unfolding pack_version
pack_version-layout (major, minor) (h, h') = rw (to_bytes-byte major h, to_bytes-byte minor h')

unpack_version-layout :
    (v : ℕ × ℕ) (rest : Bytes) → FitsVersion v → unpack_version (version_layout v ++ rest) ≡ ok v
unfolding unpack_version
unpack_version-layout v rest h = refl

pub pack_bind_nak-layout : (b : BindNak) → FitsBindNak b → pack_bind_nak b ≡ ok (bind_nak_layout b)
unfolding pack_bind_nak bind_nak_layout
pack_bind_nak-layout b h = rw (
  map_result-layout FitsVersion version_layout 2 pack_version pack_version-layout b.versions
      h.versions,
  length-map version_layout b.versions,
  to_bytes-byte _ h.num_versions,
  to_bytes-ok 2 b.reject_reason h.reject_reason,
  append-nil,
)

pub unpack_bind_nak-layout :
    (b : BindNak) → FitsBindNak b → unpack_bind_nak (bind_nak_layout b) ≡ ok b
unfolding unpack_bind_nak bind_nak_layout
unpack_bind_nak-layout b h = rw (
  unpack_parts-layout FitsVersion version_layout 2 unpack_version unpack_version-layout
      (λ v rest. refl) b.versions _ h.versions,
  from_le-le_bytes 2 b.reject_reason h.reject_reason,
)
