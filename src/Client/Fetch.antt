-- ===== src/Client/Fetch.antt =====
-- _sync_get_key of src/dpapi_ng/_client.py with create_rpc_connection of
-- src/dpapi_ng/_rpc/_client.py: the two conversations with a domain controller. That a connection is
-- closed at the end of its block is left out.
use dpapi_ng.Base.{
  ℕ, true, false, Option, none, some, List, [], ◌∷◌, if◌then◌else◌, Result, ok, err, ◌>>=◌,
  key_error, ℤ, bytes_eq,
}
use dpapi_ng.Bytes.{Bytes}
use dpapi_ng.Bytes.Text.{Text, text}
use dpapi_ng.Bytes.Uuid.{Uuid}
use dpapi_ng.Dns.{SrvRecord, lookup_dc}
use dpapi_ng.Rpc.Enums.{SecurityProvider, authn_gss_negotiate, authn_winnt, authn_gss_kerberos}
use dpapi_ng.Rpc.Syntax.{ContextElement}
use dpapi_ng.Rpc.Pdu.{SecTrailer}
use dpapi_ng.Rpc.Stub.{Response}
use dpapi_ng.Rpc.Verification.{Command, pcontext}
use dpapi_ng.Rpc.Auth.{SpnegoContext, AuthenticationProvider}
use dpapi_ng.Rpc.Client.{RpcClient}
use dpapi_ng.Rpc.Client.Exchange.{Socket, bind, request}
use dpapi_ng.Epm.Map.{pack_ept_map}
use dpapi_ng.Gkdi.Envelope.{GroupKeyEnvelope}
use dpapi_ng.Gkdi.GetKey.{GetKey}
use dpapi_ng.Gkdi.GetKey as Request
use dpapi_ng.Client.Answers.{
  epm_contexts, isd_key_contexts, ept_map_isd_key, isd_key, ndr64, process_bind_result,
  process_ept_map_result, process_get_key_result,
}
use dpapi_ng.Client.Protect.{Network}

-- The dictionary of AuthenticationProvider.__init__
unfoldable pub provider_of : Text → Result SecurityProvider
provider_of protocol =
    if bytes_eq protocol (text "negotiate")
    then ok authn_gss_negotiate
    else if bytes_eq protocol (text "ntlm")
    then ok authn_winnt
    else if bytes_eq protocol (text "kerberos")
    then ok authn_gss_kerberos
    else err key_error

-- What a caller says of itself
pub record Credentials : Type 0 where
  pub username : Option Text
  pub password : Option Text
  pub auth_protocol : Text

abbrev pub verification_trailer : List Command
verification_trailer =
    record {
      body = pcontext isd_key ndr64;
      flags = record { command_end = true; must_process = false };
      value = [];
    }
    ∷ []

abbrev pub new_get_key : Bytes → Option Uuid → ℤ → ℤ → ℤ → GetKey
new_get_key target_sd root_key_id l0 l1 l2 = record {
  target_sd = target_sd;
  root_key_id = root_key_id;
  l0_key_id = l0;
  l1_key_id = l1;
  l2_key_id = l2;
}

-- What the packages give: socket.create_connection for a server and a port, and spnego.client for
-- credentials and a host name.
pub record Connector (S T : Type 0) : Type 0 where
  pub create_connection : Text → ℕ → Result T
  pub client : Credentials → Text → Result S

module _ {S T : Type 0} (spnego : SpnegoContext S) (socket : Socket T) (connector : Connector S T)
    (fuel rounds : ℕ) where
  unfoldable pub new_provider : Credentials → Text → Result (AuthenticationProvider S)
  new_provider credentials hostname = do
    ctx ← connector.client credentials hostname
    provider ← provider_of credentials.auth_protocol
    ok (record { ctx = ctx; provider = provider; header_length = 0 })

  -- An empty protocol counts as none.
  unfoldable pub auth_of : Option Credentials → Text → Result (Option (AuthenticationProvider S))
  auth_of none server = ok none
  auth_of (some credentials) server =
      if bytes_eq credentials.auth_protocol []
      then ok none
      else (do auth ← new_provider credentials server; ok (some auth))

  -- create_rpc_connection
  unfoldable pub create_rpc_connection : Text → ℕ → Option Credentials → Result (RpcClient S × T)
  create_rpc_connection server port credentials = do
    auth ← auth_of credentials server
    sock ← connector.create_connection server port
    ok (record { auth = auth; sign_header = false }, sock)

  -- A bind to the contexts, of which the first is wanted, and one request there
  unfoldable pub call :
      List ContextElement
      → ℕ
      → Result Bytes
      → Option (List Command)
      → RpcClient S × T
      → Result (Response × Option SecTrailer)
  call contexts opnum packed trailer connection =
      let (connection', bound) = bind spnego socket fuel rounds contexts connection in
      do
        ack ← bound
        _ ← process_bind_result contexts ack 0
        stub_data ← packed
        (request spnego socket fuel 0 opnum stub_data trailer connection').1

  unfoldable pub isd_key_port : Text → Result ℕ
  isd_key_port server = do
    rpc ← create_rpc_connection server 135 none
    (response, _) ← call epm_contexts 3 (pack_ept_map ept_map_isd_key) none rpc
    process_ept_map_result response

  unfoldable pub sync_get_key :
      Credentials → Text → Bytes → Option Uuid → ℤ → ℤ → ℤ → Result GroupKeyEnvelope
  sync_get_key credentials server target_sd root_key_id l0 l1 l2 = do
    port ← isd_key_port server
    rpc ← create_rpc_connection server port (some credentials)
    (response, sec_trailer) ←
        call isd_key_contexts 0 (Request.pack (new_get_key target_sd root_key_id l0 l1 l2))
          (some verification_trailer) rpc
    process_get_key_result response sec_trailer

  -- The network of ncrypt_protect_secret and ncrypt_unprotect_secret
  abbrev pub network : Credentials → (Text → Result (List SrvRecord)) → Network
  network credentials resolve = record {
    lookup_dc = lookup_dc resolve;
    sync_get_key = sync_get_key credentials;
  }
