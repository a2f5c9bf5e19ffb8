-- ===== src/Rpc/Enums/Members.antt =====
-- The members of the enumerations of src/dpapi_ng/_rpc against their values.
use dpapi_ng.Base.{◌<◌, arith, ◌≡◌, refl, ok}
use dpapi_ng.Rpc.Enums.{
  IntegerRep, CharacterRep, FloatingPointRep, PacketType, SecurityProvider, AuthenticationLevel,
  ContextResultCode, acceptance, ack, alter_context, alter_context_resp, ascii, authn_default,
  authn_gss_kerberos, authn_gss_negotiate, authn_gss_schannel, authn_netlogon, authn_none,
  authn_winnt, big_endian, bind, bind_ack, bind_nak, cancel_ack, cl_cancel, co_cancel, cray, ebcdic,
  fack, fault, ibm, ieee, level_call, level_connect, level_default, level_none, level_pkt,
  level_pkt_integrity, level_pkt_privacy, little_endian, negotiate_ack, nocall, orphaned, ping,
  provider_rejection, reject, request, response, shutdown, user_rejection, vax, working,
  authentication_level_of, authentication_level_value, character_rep_of, character_rep_value,
  context_result_code_of, context_result_code_value, floating_point_rep_of,
  floating_point_rep_value, integer_rep_of, integer_rep_value, packet_type_of, packet_type_value,
  security_provider_of, security_provider_value,
}

pub integer_rep_of-value : (m : IntegerRep) → integer_rep_of (integer_rep_value m) ≡ ok m
unfolding integer_rep_of
integer_rep_of-value big_endian = refl
integer_rep_of-value little_endian = refl

pub character_rep_of-value : (m : CharacterRep) → character_rep_of (character_rep_value m) ≡ ok m
unfolding character_rep_of
character_rep_of-value ascii = refl
character_rep_of-value ebcdic = refl

pub floating_point_rep_of-value :
    (m : FloatingPointRep) → floating_point_rep_of (floating_point_rep_value m) ≡ ok m
unfolding floating_point_rep_of
floating_point_rep_of-value ieee = refl
floating_point_rep_of-value vax = refl
floating_point_rep_of-value cray = refl
floating_point_rep_of-value ibm = refl

pub packet_type_of-value : (m : PacketType) → packet_type_of (packet_type_value m) ≡ ok m
unfolding packet_type_of
packet_type_of-value request = refl
packet_type_of-value ping = refl
packet_type_of-value response = refl
packet_type_of-value fault = refl
packet_type_of-value working = refl
packet_type_of-value nocall = refl
packet_type_of-value reject = refl
packet_type_of-value ack = refl
packet_type_of-value cl_cancel = refl
packet_type_of-value fack = refl
packet_type_of-value cancel_ack = refl
packet_type_of-value bind = refl
packet_type_of-value bind_ack = refl
packet_type_of-value bind_nak = refl
packet_type_of-value alter_context = refl
packet_type_of-value alter_context_resp = refl
packet_type_of-value shutdown = refl
packet_type_of-value co_cancel = refl
packet_type_of-value orphaned = refl

pub security_provider_of-value :
    (m : SecurityProvider) → security_provider_of (security_provider_value m) ≡ ok m
unfolding security_provider_of
security_provider_of-value authn_none = refl
security_provider_of-value authn_gss_negotiate = refl
security_provider_of-value authn_winnt = refl
security_provider_of-value authn_gss_schannel = refl
security_provider_of-value authn_gss_kerberos = refl
security_provider_of-value authn_netlogon = refl
security_provider_of-value authn_default = refl

pub authentication_level_of-value :
    (m : AuthenticationLevel) → authentication_level_of (authentication_level_value m) ≡ ok m
unfolding authentication_level_of
authentication_level_of-value level_default = refl
authentication_level_of-value level_none = refl
authentication_level_of-value level_connect = refl
authentication_level_of-value level_call = refl
authentication_level_of-value level_pkt = refl
authentication_level_of-value level_pkt_integrity = refl
authentication_level_of-value level_pkt_privacy = refl

pub context_result_code_of-value :
    (m : ContextResultCode) → context_result_code_of (context_result_code_value m) ≡ ok m
unfolding context_result_code_of
context_result_code_of-value acceptance = refl
context_result_code_of-value user_rejection = refl
context_result_code_of-value provider_rejection = refl
context_result_code_of-value negotiate_ack = refl

pub floating_point_rep_small : (m : FloatingPointRep) → floating_point_rep_value m < 256
floating_point_rep_small ieee = omega arith
floating_point_rep_small vax = omega arith
floating_point_rep_small cray = omega arith
floating_point_rep_small ibm = omega arith

pub packet_type_small : (m : PacketType) → packet_type_value m < 256
packet_type_small request = omega arith
packet_type_small ping = omega arith
packet_type_small response = omega arith
packet_type_small fault = omega arith
packet_type_small working = omega arith
packet_type_small nocall = omega arith
packet_type_small reject = omega arith
packet_type_small ack = omega arith
packet_type_small cl_cancel = omega arith
packet_type_small fack = omega arith
packet_type_small cancel_ack = omega arith
packet_type_small bind = omega arith
packet_type_small bind_ack = omega arith
packet_type_small bind_nak = omega arith
packet_type_small alter_context = omega arith
packet_type_small alter_context_resp = omega arith
packet_type_small shutdown = omega arith
packet_type_small co_cancel = omega arith
packet_type_small orphaned = omega arith

pub security_provider_small : (m : SecurityProvider) → security_provider_value m < 256
security_provider_small authn_none = omega arith
security_provider_small authn_gss_negotiate = omega arith
security_provider_small authn_winnt = omega arith
security_provider_small authn_gss_schannel = omega arith
security_provider_small authn_gss_kerberos = omega arith
security_provider_small authn_netlogon = omega arith
security_provider_small authn_default = omega arith

pub authentication_level_small : (m : AuthenticationLevel) → authentication_level_value m < 256
authentication_level_small level_default = omega arith
authentication_level_small level_none = omega arith
authentication_level_small level_connect = omega arith
authentication_level_small level_call = omega arith
authentication_level_small level_pkt = omega arith
authentication_level_small level_pkt_integrity = omega arith
authentication_level_small level_pkt_privacy = omega arith

pub context_result_code_small : (m : ContextResultCode) → context_result_code_value m < 256
context_result_code_small acceptance = omega arith
context_result_code_small user_rejection = omega arith
context_result_code_small provider_rejection = omega arith
context_result_code_small negotiate_ack = omega arith
