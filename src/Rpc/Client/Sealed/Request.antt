-- ===== src/Rpc/Client/Sealed/Request.antt =====
-- RpcClient._prepare_pdu of src/dpapi_ng/_rpc/_client.py on a request with a trailer: the packet that
-- it encrypts.
use dpapi_ng.Base.{
  ℕ, ◌+◌, ◌^◌, ◌<◌, ◌≡◌, refl, arith, some, ◌∷◌, ◌++◌, append-nil, length, length-append, take,
  drop, ok, ◌>>=◌,
}
use dpapi_ng.Bytes.{Bytes, le_bytes}
use dpapi_ng.Bytes.RoundTrip.{to_bytes-ok}
use dpapi_ng.Rpc.Enums.{request, security_provider_value, authentication_level_value}
use dpapi_ng.Rpc.Pdu.{PduHeader, SecTrailer}
use dpapi_ng.Rpc.Pdu.RoundTrip.{
  header_layout, pack_header-layout, FitsTrailer, trailer_layout, length-trailer_layout,
  pack_trailer-layout,
}
use dpapi_ng.Rpc.Stub.{pack_request}
use dpapi_ng.Rpc.Packet.{pack_body, pack}
use dpapi_ng.Rpc.Auth.{SpnegoContext, AuthenticationProvider}
use dpapi_ng.Rpc.Client.{
  RpcClient, Offsets, create_pdu_header, request_of, set_frag_len, seal, prepare_pdu,
}
use dpapi_ng.Rpc.Client.Sealed.{packet_of, Agree, unseal-seal}
use dpapi_ng.Rpc.Client.Incoming.{unseal}

set_frag_len-ok :
    (bs : Bytes) (n : ℕ)
    → length bs ≡ n
    → n < 256 ^ 2
    → set_frag_len bs ≡ ok (take 8 bs ++ (le_bytes 2 n ++ drop 10 bs))
unfolding set_frag_len
set_frag_len-ok bs n e h = rw (set_frag_len, e, to_bytes-ok 2 n h)

module _ (context_id opnum : ℕ) (stub_data : Bytes) (t : SecTrailer) where
  abbrev size : ℕ
  size = 32 + length stub_data + length t.auth_value

  -- The header of the packet with its size, and the fields before the stub data.
  abbrev pub request_head : Bytes
  request_head =
      5
      ∷ 0
      ∷ 0
      ∷ 3
      ∷ 16
      ∷ 0
      ∷ 0
      ∷ 0
      ∷ (le_bytes 2 size
          ++ (le_bytes 2 (length t.auth_value)
              ++ (le_bytes 4 1
                  ++ (le_bytes 4 (length stub_data)
                      ++ (le_bytes 2 context_id ++ le_bytes 2 opnum)))))

  abbrev pub trailer_head : Bytes
  trailer_head =
      security_provider_value t.provider
      ∷ authentication_level_value t.level
      ∷ t.pad_length
      ∷ 0
      ∷ le_bytes 4 t.context_id

  pub record FitsSealed : Type 0 where
    pub context : context_id < 256 ^ 2
    pub operation : opnum < 256 ^ 2
    pub trailer : FitsTrailer t
    pub whole : size < 256 ^ 2

  -- The packet before its size is set.
  abbrev raw : Bytes
  raw =
      5
      ∷ 0
      ∷ 0
      ∷ 3
      ∷ 16
      ∷ 0
      ∷ 0
      ∷ 0
      ∷ (le_bytes 2 0
          ++ (le_bytes 2 (length t.auth_value)
              ++ (le_bytes 4 1
                  ++ (le_bytes 4 (length stub_data)
                      ++ (le_bytes 2 context_id
                          ++ (le_bytes 2 opnum ++ (stub_data ++ trailer_layout t)))))))

  length-raw : length raw ≡ size
  length-raw = omega (arith, length-append stub_data (trailer_layout t), length-trailer_layout t)

  pack-request_of : FitsSealed → pack (request_of context_id opnum stub_data (some t)) ≡ ok raw
  unfolding pack pack_body pack_request request_of create_pdu_header header_layout
  pack-request_of h =
      let w = h.whole in
      let header =
        pack_header-layout (create_pdu_header request (length t.auth_value) 1 0) (record {
          version = omega arith;
          version_minor = omega arith;
          packet_flags = omega arith;
          frag_len = omega arith;
          auth_len = omega arith;
          call_id = omega arith;
        }) in
      rw (
        to_bytes-ok 4 (length stub_data) (omega arith),
        to_bytes-ok 2 context_id h.context,
        to_bytes-ok 2 opnum h.operation,
        header,
        pack_trailer-layout t h.trailer,
        append-nil,
        append-nil,
      )

  set_frag_len-raw :
      FitsSealed
      → set_frag_len raw ≡ ok (packet_of request_head stub_data trailer_head t.auth_value)
  unfolding set_frag_len trailer_layout
  set_frag_len-raw h = set_frag_len-ok raw size length-raw h.whole

module _ {S : Type 0} (spnego : SpnegoContext S) where
  pub prepare_pdu-request_of :
      (context_id opnum : ℕ) (stub_data : Bytes) (t : SecTrailer) (offsets : Offsets)
      (client : RpcClient S)
      → FitsSealed context_id opnum stub_data t
      → prepare_pdu spnego (request_of context_id opnum stub_data (some t)) offsets client
        ≡ seal spnego client.auth offsets
            (packet_of
              (request_head context_id opnum stub_data t)
              stub_data
              (trailer_head context_id opnum stub_data t)
              t.auth_value)
            client
  unfolding prepare_pdu
  prepare_pdu-request_of context_id opnum stub_data t offsets client h = rw (
    pack-request_of context_id opnum stub_data t h,
    set_frag_len-raw context_id opnum stub_data t h,
  )

module _ {S : Type 0} (spnego : SpnegoContext S) (context_id opnum : ℕ) (stub_data : Bytes)
    (t : SecTrailer) (encrypted signature : Bytes) (sender receiver : RpcClient S)
    (pa pb : AuthenticationProvider S) (a' b' : S) where
  abbrev head : Bytes
  head = request_head context_id opnum stub_data t

  abbrev trailer : Bytes
  trailer = trailer_head context_id opnum stub_data t

  -- For a request with a security trailer whose numbers fit and that has less than 64 KiB, and
  -- two peers whose security contexts agree on it (the stub data that one wraps, to as many
  -- octets and a signature, is what the other one unwraps, each with the first 24 octets of the
  -- packet with its size set and the first eight of the trailer) and whose clients sign headers
  -- alike; where the header that comes with it gives the length of the signature, which is not
  -- 0, and of the whole packet: _prepare_pdu succeeds, and what _process_response makes of the
  -- packet before it is unpacked is the packet with its stub data in the clear and the
  -- signature.
  pub unseal-prepare_pdu :
      (header : PduHeader) (until : ℕ)
      → FitsSealed context_id opnum stub_data t
      → sender.auth ≡ some pa
      → Agree spnego sender.sign_header head stub_data trailer encrypted signature pa.ctx a' pb.ctx
          b'
      → receiver.sign_header ≡ sender.sign_header
      → 0 < header.auth_len
      → length signature ≡ header.auth_len
      → header.frag_len ≡ length (packet_of head encrypted trailer signature)
      → ((prepare_pdu spnego
            (request_of context_id opnum stub_data (some t))
            (some (24, 24 + length stub_data))
            sender).1
          >>= λ sealed. (unseal spnego header (some pb) (some (24, until)) sealed receiver).1)
        ≡ ok (packet_of head stub_data trailer signature)
  unfolding seal
  unseal-prepare_pdu header until fits auth agree same_sign some_auth sig_len frag_len =
      rw
        (
          prepare_pdu-request_of spnego context_id opnum stub_data t
              (some (24, 24 + length stub_data)) sender fits,
          auth,
        )
        (unseal-seal spnego head stub_data trailer encrypted signature refl refl sender receiver pa
          pb a' b' agree header until t.auth_value same_sign some_auth sig_len frag_len)
