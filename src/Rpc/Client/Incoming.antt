-- ===== src/Rpc/Client/Incoming.antt =====
-- class RpcClient of src/dpapi_ng/_rpc/_client.py: what it takes from answers.
use dpapi_ng.Base.{
  ℕ, suc, ◌+◌, ◌-◌, ◌/◌, ◌%◌, ◌==◌, leb, Bool, true, false, Option, none, some, List, [], ◌∷◌, ◌++◌,
  length, slice, take, drop, index, if◌then◌else◌, Result, ok, err, value_error, buffer_error,
}
use dpapi_ng.Bytes.{Bytes}
use dpapi_ng.Rpc.Enums.{context_result_code_value}
use dpapi_ng.Rpc.Pdu.{PduHeader, SecTrailer}
use dpapi_ng.Rpc.Syntax.{ContextElement}
use dpapi_ng.Rpc.Bind.{BindAck}
use dpapi_ng.Rpc.Packet.{Body, response_pdu, bind_ack_pdu, alter_context_response_pdu, Pdu, unpack}
use dpapi_ng.Rpc.Action.{Action, ◌>>=◌, done, lift, raise}
use dpapi_ng.Rpc.Auth.{SpnegoContext, AuthenticationProvider, unwrap}
use dpapi_ng.Rpc.Client.{RpcClient, pfc_support_header_sign, Offsets, on_auth}

-- The place of the index n - k in a sequence of this size: a negative one counts from the end.
abbrev pub place : ℕ → ℕ → ℕ → ℕ
place size n k = if leb k n then (if leb (n - k) size then n - k else size) else size - (k - n)

-- resp_type
pub data Expected : Type 0 where
  expect_bind_ack expect_alter_context_response expect_response : Expected

-- alter_contexts, for the contexts from idx on
unfoldable pub accepted_contexts : BindAck → ℕ → List ContextElement → Result (List ContextElement)
accepted_contexts ack idx [] = ok []
accepted_contexts ack idx (c ∷ contexts) =
    let rest = accepted_contexts ack (suc idx) contexts in
    elim (index idx ack.results) [
      | err raised ↦ err raised
      | ok context_res ↦
          (if context_result_code_value context_res.result == 0
            then elim rest [ err raised ↦ err raised | ok accepted ↦ ok (c ∷ accepted) ]
            else rest)
    ]

abbrev pub auth_value_of : Option SecTrailer → Option Bytes
auth_value_of none = none
auth_value_of (some t) = some t.auth_value

-- response[start:stop] = stub, which may not change the size under a memoryview
unfoldable pub replace : ℕ → ℕ → Bytes → Bytes → Result Bytes
replace start stop stub response =
    if length stub == stop - start
    then ok (take start response ++ (stub ++ drop (start + length stub) response))
    else err buffer_error

-- isinstance(pdu_resp, resp_type), behind the answers that are errors
unfoldable pub is_expected : Expected → Body → Bool
is_expected expect_bind_ack (bind_ack_pdu b) = true
is_expected expect_bind_ack (alter_context_response_pdu b) = true
is_expected expect_alter_context_response (alter_context_response_pdu b) = true
is_expected expect_response (response_pdu r) = true
is_expected expected body = false

module _ {S : Type 0} where
  -- RpcClient._process_bind_ack
  unfoldable pub process_bind_ack :
      PduHeader
      → Option SecTrailer
      → BindAck
      → List ContextElement
      → Action (RpcClient S) (List ContextElement × Option Bytes)
  process_bind_ack header sec_trailer ack contexts = do
    alter_contexts ← lift (accepted_contexts ack 0 contexts)
    λ client. (
      (if header.packet_flags / pfc_support_header_sign % 2 == 1
          then client
          else record client { sign_header = false }),
      ok (alter_contexts, auth_value_of sec_trailer),
    )

module _ {S : Type 0} (spnego : SpnegoContext S) where
  unfoldable pub unseal :
      PduHeader → Option (AuthenticationProvider S) → Offsets → Bytes → Action (RpcClient S) Bytes
  unseal pdu_header none encrypt_offsets response client = done response client
  unseal pdu_header (some auth) none response client = done response client
  unseal pdu_header (some auth) (some (start, stop)) response client =
      let auth_len = pdu_header.auth_len in
      let place_of = place (length response) pdu_header.frag_len in
      let offset = place_of (auth_len + 8) in
      if auth_len == 0
      then done response client
      else (do
        dec_stub ←
            on_auth
              (unwrap spnego (slice 0 start response) (slice start offset response)
                (slice offset (place_of auth_len) response) (drop (place_of auth_len) response)
                client.sign_header)
              auth
        lift (replace start offset dec_stub response))
          client

  -- RpcClient._process_response
  unfoldable pub process_response :
      Bytes → PduHeader → Expected → Offsets → Action (RpcClient S) Pdu
  process_response response pdu_header resp_type encrypt_offsets client =
      (do
        response' ← unseal pdu_header client.auth encrypt_offsets response
        pdu_resp ← lift (unpack response')
        (if is_expected resp_type pdu_resp.body then done pdu_resp else raise value_error))
        client
