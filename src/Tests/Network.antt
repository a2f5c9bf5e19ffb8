-- ===== src/Tests/Network.antt =====
-- The endpoint mapper and the RPC client at concrete inputs.
use dpapi_ng.Base.{
  ℕ, ◌+◌, ◌^◌, ◌<◌, ◌≤◌, ◌≡◌, refl, arith, true, none, some, List, [], ◌∷◌, ◌++◌, length, reverse,
  replicate, Result, ok, err, ◌>>=◌, out_of_fuel,
}
use dpapi_ng.Bytes.{Bytes}
use dpapi_ng.Bytes.Uuid.{IsUuid}
use dpapi_ng.Rpc.Enums.{authn_winnt, level_pkt_privacy, response}
use dpapi_ng.Rpc.Pdu.{PduHeader, SecTrailer}
use dpapi_ng.Rpc.Stub.{Response}
use dpapi_ng.Rpc.Auth.{SpnegoContext, AuthenticationProvider}
use dpapi_ng.Rpc.Client.{RpcClient, create_pdu_header, request_of, prepare_pdu}
use dpapi_ng.Rpc.Client.Incoming.{unseal}
use dpapi_ng.Rpc.Client.Sealed.{packet_of}
use dpapi_ng.Rpc.Client.Sealed.Request.{request_head, trailer_head, unseal-prepare_pdu}
use dpapi_ng.Rpc.Client.Exchange.{Socket, receive}
use dpapi_ng.Rpc.Client.Exchange.Receive.{IsStream, receive_all, receive_closed}
use dpapi_ng.Epm.Floor.{Floor}
use dpapi_ng.Epm.Floor.RoundTrip.{floor_layout}
use dpapi_ng.Epm.Tower.{build_tcpip_tower}
use dpapi_ng.Epm.Tower.RoundTrip.{FitsTower, tower_layout}
use dpapi_ng.Epm.Map.{EptMapResult, pack_ept_map_result}
use dpapi_ng.Epm.Map.Answer.{FitsAnswer, FitsResult}
use dpapi_ng.Client.Answers.{isd_key, ndr, first_port, port_in, process_ept_map_result}
use dpapi_ng.Client.Answers.Port.{answered, IsAnswer, process_ept_map_result-pack_ept_map_result}

isd_key-IsUuid : IsUuid isd_key.uuid
isd_key-IsUuid = record {
  low = omega arith;
  mid = omega arith;
  hi = omega arith;
  node = omega arith;
}

ndr-IsUuid : IsUuid ndr.uuid
ndr-IsUuid = record { low = omega arith; mid = omega arith; hi = omega arith; node = omega arith }

-- A tower of the ISD_KEY service
abbrev tower : ℕ → ℕ → List Floor
tower port addr = build_tcpip_tower isd_key ndr port addr

tower-fits : (port addr : ℕ) → port < 256 ^ 2 → addr < 256 ^ 4 → FitsTower (tower port addr)
unfolding build_tcpip_tower
tower-fits port addr h k = record {
  floor_len = omega arith;
  floors = (
    record {
      kind = (isd_key-IsUuid, omega arith, omega arith);
      lhs_len = omega arith;
      rhs_len = omega arith;
    },
    (
      record {
        kind = (ndr-IsUuid, omega arith, omega arith);
        lhs_len = omega arith;
        rhs_len = omega arith;
      },
      (
        record { kind = omega arith; lhs_len = omega arith; rhs_len = omega arith },
        (
          record { kind = h; lhs_len = omega arith; rhs_len = omega arith },
          (record { kind = k; lhs_len = omega arith; rhs_len = omega arith }, tt),
        ),
      ),
    ),
  );
}

abbrev map_result : EptMapResult
map_result = record {
  entry_handle = some (0, isd_key.uuid);
  towers = tower 49664 167772161 ∷ tower 49665 167772161 ∷ [];
  status = 0;
}

answer-fits : (port : ℕ) → port < 256 ^ 2 → FitsAnswer (tower port 167772161)
unfolding build_tcpip_tower tower_layout floor_layout
answer-fits port h = record {
  floors = tower-fits port 167772161 h (omega arith);
  tower_length = omega arith;
  above = omega arith;
  below = omega arith;
}

map_result-fits : FitsResult map_result
map_result-fits = record {
  entry_handle = (omega arith, isd_key-IsUuid, refl);
  num_towers = omega arith;
  towers = (answer-fits 49664 (omega arith), (answer-fits 49665 (omega arith), tt));
  status = omega arith;
}

abbrev a_response : Response
a_response = record { alloc_hint = 0; context_id = 0; cancel_count = 0; stub_data = [] }

first_port_test : first_port map_result.towers ≡ some 49664
unfolding first_port port_in build_tcpip_tower
first_port_test = refl

process_ept_map_result-pack_ept_map_result_example :
    (stub_data : Bytes) × (pack_ept_map_result map_result ≡ ok stub_data)
    × IsAnswer map_result (process_ept_map_result (answered a_response stub_data))
process_ept_map_result-pack_ept_map_result_example =
    process_ept_map_result-pack_ept_map_result a_response map_result map_result-fits

-- A socket whose bytes come one by one.
abbrev trickle_recv : ℕ → Bytes → Bytes × Result Bytes
trickle_recv size [] = ([], ok [])
trickle_recv size (x ∷ xs) = (xs, ok (x ∷ []))

abbrev trickle : Socket Bytes
trickle = record { sendall = λ bs t. (t, ok tt); recv = trickle_recv }

trickle-IsStream : IsStream trickle (λ t. t)
trickle-IsStream = record { recv = one_byte }
  where
    one_byte :
        (t : Bytes) (size : ℕ)
        → 0 < size
        → 0 < length t
        → (read : Bytes) × (t' : Bytes) × (trickle_recv size t ≡ (t', ok read))
          × (t ≡ read ++ t')
          × (0 < length read)
          × (length read ≤ size)
    one_byte [] size h k = absurd (omega arith)
    one_byte (x ∷ xs) size h k = (x ∷ [], xs, refl, refl, omega arith, omega arith)

receive_all_example :
    (t' : Bytes) × (receive trickle 4 3 (5 ∷ 0 ∷ 2 ∷ 3 ∷ []) ≡ (t', ok (5 ∷ 0 ∷ 2 ∷ [])))
    × (t' ≡ 3 ∷ [])
receive_all_example =
    receive_all trickle (λ t. t) trickle-IsStream 4 (5 ∷ 0 ∷ 2 ∷ 3 ∷ []) (5 ∷ 0 ∷ 2 ∷ []) (3 ∷ [])
      refl (omega arith)

abbrev closed : Socket Unit
closed = record { sendall = λ bs t. (t, ok tt); recv = λ size t. (t, ok []) }

receive_closed_example : receive closed 1000 40 tt ≡ (tt, err out_of_fuel)
receive_closed_example = receive_closed closed 1000 40 tt (omega arith) (λ size. refl)

-- Contexts that count their packets, and sign with sixteen times the count.
abbrev counting : SpnegoContext ℕ
counting = record {
  step = λ in_token n. (n, ok none);
  complete = λ n. true;
  header_size = λ n. (n, ok 16);
  wrap_iov = λ sign head body trailer n. (n + 1, ok (some (reverse body), some (replicate 16 n)));
  unwrap_iov = λ sign head body trailer signature n. (n + 1, ok (some (reverse body)));
}

abbrev provider : ℕ → AuthenticationProvider ℕ
provider n = record { ctx = n; provider = authn_winnt; header_length = 16 }

abbrev peer : ℕ → RpcClient ℕ
peer n = record { auth = some (provider n); sign_header = true }

abbrev answer_header : PduHeader
answer_header = record (create_pdu_header response 16 1 0) { frag_len = 51 }

abbrev empty_trailer : SecTrailer
empty_trailer = record {
  provider = authn_winnt;
  level = level_pkt_privacy;
  pad_length = 13;
  context_id = 0;
  auth_value = replicate 16 0;
}

unseal-prepare_pdu_example :
    ((prepare_pdu counting
        (request_of 0 3 (1 ∷ 2 ∷ 3 ∷ []) (some empty_trailer))
        (some (24, 27))
        (peer 7)).1
      >>= λ sealed.
          (unseal counting answer_header (some (provider 9)) (some (24, 27)) sealed (peer 9)).1)
    ≡ ok (
        packet_of
          (request_head 0 3 (1 ∷ 2 ∷ 3 ∷ []) empty_trailer)
          (1 ∷ 2 ∷ 3 ∷ [])
          (trailer_head 0 3 (1 ∷ 2 ∷ 3 ∷ []) empty_trailer)
          (replicate 16 7))
unfolding create_pdu_header
unseal-prepare_pdu_example =
    unseal-prepare_pdu counting 0 3 (1 ∷ 2 ∷ 3 ∷ []) empty_trailer (3 ∷ 2 ∷ 1 ∷ []) (replicate 16 7)
      (peer 7) (peer 9) (provider 7) (provider 9) 8 10 answer_header 27
      (record {
        context = omega arith;
        operation = omega arith;
        trailer = record { pad_length = omega arith; context_id = omega arith };
        whole = omega arith;
      })
      refl (record { wrapped = refl; unwrapped = refl; same_size = refl }) refl (omega arith) refl
      refl
