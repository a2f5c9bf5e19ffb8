-- ===== src/Rpc/Client/Exchange.antt =====
-- class SyncRpcClient of src/dpapi_ng/_rpc/_client.py. The state is the client with its socket.
pub mod Receive
use Prim.Native.Nat.{min}
use dpapi_ng.Base.{
  ℕ, zero, suc, ◌+◌, ◌-◌, ◌==◌, Bool, true, false, Option, none, some, List, [], ◌∷◌, ◌++◌, length,
  or_else, if◌then◌else◌, ok, err, value_error, out_of_fuel,
}
use dpapi_ng.Bytes.{Bytes}
use dpapi_ng.Rpc.Pdu.{PduHeader, SecTrailer, unpack_header}
use dpapi_ng.Rpc.Syntax.{ContextElement}
use dpapi_ng.Rpc.Stub.{Fault, Request, Response}
use dpapi_ng.Rpc.Bind.{Bind, BindAck, BindNak}
use dpapi_ng.Rpc.Packet.{
  Body, fault_pdu, request_pdu, response_pdu, bind_pdu, bind_ack_pdu, bind_nak_pdu,
  alter_context_pdu, alter_context_response_pdu, Pdu,
}
use dpapi_ng.Rpc.Verification.{Command}
use dpapi_ng.Rpc.Action.{Action, after, ◌>>=◌, done, lift, raise}
use dpapi_ng.Rpc.Auth.{SpnegoContext, AuthenticationProvider, step}
use dpapi_ng.Rpc.Client.{
  RpcClient, Offsets, on_auth, is_some, create_bind, create_alter_context, create_request,
  prepare_pdu,
}
use dpapi_ng.Rpc.Client.Incoming.{
  process_bind_ack, Expected, expect_bind_ack, expect_alter_context_response, expect_response,
  process_response,
}

-- What the client uses of a socket. recv returns as many bytes as are asked for, or fewer, and none
-- where the peer has closed the connection; recv_into is recv with the size of the view.
pub record Socket (T : Type 0) : Type 0 where
  pub sendall : Bytes → Action T Unit
  pub recv : ℕ → Action T Bytes

module _ {T : Type 0} (socket : Socket T) where
  -- while view: …, a round for each call of recv_into
  unfoldable pub receive : ℕ → ℕ → Action T Bytes
  receive zero size = raise out_of_fuel
  receive (suc fuel) size = if size == 0 then done [] else (do
    read ← socket.recv size
    rest ← receive fuel (size - length read)
    done (read ++ rest))

  -- The header, which fills the first 16 bytes of a packet or all of a shorter one, and the packet
  unfoldable pub receive_packet : ℕ → Action T (PduHeader × Bytes)
  receive_packet fuel = do
    header ← socket.recv 16
    resp_header ← lift (unpack_header header)
    (if length header == min 16 resp_header.frag_len
        then (do
          rest ← receive fuel (resp_header.frag_len - 16)
          done (resp_header, header ++ rest))
        else raise value_error)

module _ {S T : Type 0} (spnego : SpnegoContext S) (socket : Socket T) (fuel : ℕ) where
  abbrev pub Connection : Type 0
  Connection = RpcClient S × T

  -- Calls on the client and on the socket
  abbrev pub on_client : {A : Type 0} → Action (RpcClient S) A → Action Connection A
  on_client call (client, sock) = let (client', result) = call client in ((client', sock), result)

  abbrev pub on_socket : {A : Type 0} → Action T A → Action Connection A
  on_socket call (client, sock) = let (sock', result) = call sock in ((client, sock'), result)

  -- SyncRpcClient._send_pdu
  unfoldable pub send_pdu : Pdu → Expected → Offsets → Action Connection Pdu
  send_pdu pdu resp_type encrypt_offsets = do
    b_pdu ← on_client (prepare_pdu spnego pdu encrypt_offsets)
    _ ← on_socket (socket.sendall b_pdu)
    (resp_header, resp) ← on_socket (receive_packet socket fuel)
    on_client (process_response spnego resp resp_header resp_type encrypt_offsets)

  -- What process_response let through
  unfoldable pub bind_ack_of : Pdu → Action Connection BindAck
  bind_ack_of pdu = elim pdu.body [
    | bind_ack_pdu b ↦ done b
    | alter_context_response_pdu b ↦ done b
    | fault_pdu f ↦ raise value_error
    | request_pdu r ↦ raise value_error
    | response_pdu r ↦ raise value_error
    | bind_pdu b ↦ raise value_error
    | bind_nak_pdu b ↦ raise value_error
    | alter_context_pdu b ↦ raise value_error
  ]

  unfoldable pub response_of : Pdu → Action Connection Response
  response_of pdu = elim pdu.body [
    | response_pdu r ↦ done r
    | bind_ack_pdu b ↦ raise value_error
    | alter_context_response_pdu b ↦ raise value_error
    | fault_pdu f ↦ raise value_error
    | request_pdu r ↦ raise value_error
    | bind_pdu b ↦ raise value_error
    | bind_nak_pdu b ↦ raise value_error
    | alter_context_pdu b ↦ raise value_error
  ]

  -- self._auth.step, where there is a provider
  unfoldable pub step_auth : Option Bytes → Action (RpcClient S) (Option SecTrailer)
  step_auth in_token client = elim client.auth [
    | none ↦ (client, ok none)
    | some auth ↦
        (do sec_trailer ← on_auth (step spnego in_token) auth; done (some sec_trailer)) client
  ]

  unfoldable pub is_complete : RpcClient S → Bool
  is_complete client = elim client.auth [ none ↦ true | some auth ↦ spnego.complete auth.ctx ]

  -- What a client may ask of itself without a change
  abbrev pub ask : {A : Type 0} → (RpcClient S → A) → Action Connection A
  ask question (client, sock) = ((client, sock), ok (question client))

  abbrev pub is_empty : Option SecTrailer → Bool
  is_empty none = true
  is_empty (some t) = length t.auth_value == 0

  -- The alter context packet and its answer
  unfoldable pub alter : List ContextElement → Option SecTrailer → Action Connection (Option Bytes)
  alter contexts none = done none
  alter contexts (some sec_trailer) = do
    alter_context ← ask (create_alter_context contexts sec_trailer)
    alter_resp ← send_pdu alter_context expect_alter_context_response none
    ack ← bind_ack_of alter_resp
    (_, in_token) ←
        on_client (process_bind_ack alter_resp.header alter_resp.sec_trailer ack contexts)
    done in_token

  -- while not self._auth.complete: …
  unfoldable pub negotiate : ℕ → List ContextElement → Option Bytes → Action Connection Unit
  negotiate zero contexts in_token = raise out_of_fuel
  negotiate (suc rounds) contexts in_token = do
    complete ← ask is_complete
    (if complete then done tt else (do
      sec_trailer ← on_client (step_auth (some (or_else in_token [])))
      (if is_empty sec_trailer
          then done tt
          else (do in_token' ← alter contexts sec_trailer; negotiate rounds contexts in_token'))))

  -- SyncRpcClient.bind
  unfoldable pub bind : ℕ → List ContextElement → Action Connection BindAck
  bind rounds contexts = do
    sec_trailer ← on_client (step_auth none)
    request ← on_client (λ client.
        let (client', pdu) = create_bind contexts sec_trailer client in (client', ok pdu))
    answer ← send_pdu request expect_bind_ack none
    bind_ack ← bind_ack_of answer
    with_auth ← ask (λ client. is_some client.auth)
    (if with_auth
        then (do
          (final_contexts, in_token) ←
              on_client (process_bind_ack answer.header answer.sec_trailer bind_ack contexts)
          _ ← negotiate rounds final_contexts in_token
          done bind_ack)
        else done bind_ack)

  -- SyncRpcClient.request
  unfoldable pub request :
      ℕ → ℕ → Bytes → Option (List Command) → Action Connection (Response × Option SecTrailer)
  request context_id opnum stub_data verification_trailer = do
    (req, encrypt_offsets) ←
        on_client (create_request spnego context_id opnum stub_data verification_trailer)
    answer ← send_pdu req expect_response encrypt_offsets
    response ← response_of answer
    done (response, answer.sec_trailer)
