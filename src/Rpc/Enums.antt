-- ===== src/Rpc/Enums.antt =====
-- The enumerations of src/dpapi_ng/_rpc/_pdu.py and src/dpapi_ng/_rpc/_bind.py: their values, and
-- the calls that make a member of a number, which raise ValueError where there is none.
pub mod Members
use dpapi_ng.Base.{ℕ, ◌<◌, arith, ◌≡◌, refl, ◌==◌, if◌then◌else◌, Result, ok, err, value_error}

-- class IntegerRep: the byte order of a data representation
pub data IntegerRep : Type 0 where
  big_endian little_endian : IntegerRep

abbrev pub integer_rep_value : IntegerRep → ℕ
integer_rep_value big_endian = 0
integer_rep_value little_endian = 1

unfoldable pub integer_rep_of : ℕ → Result IntegerRep
integer_rep_of n =
    if n == 0 then ok big_endian else if n == 1 then ok little_endian else err value_error

-- class CharacterRep: the character set of a data representation
pub data CharacterRep : Type 0 where
  ascii ebcdic : CharacterRep

abbrev pub character_rep_value : CharacterRep → ℕ
character_rep_value ascii = 0
character_rep_value ebcdic = 1

unfoldable pub character_rep_of : ℕ → Result CharacterRep
character_rep_of n = if n == 0 then ok ascii else if n == 1 then ok ebcdic else err value_error

-- class FloatingPointRep: the floating point format of a data representation
pub data FloatingPointRep : Type 0 where
  ieee vax cray ibm : FloatingPointRep

abbrev pub floating_point_rep_value : FloatingPointRep → ℕ
floating_point_rep_value ieee = 0
floating_point_rep_value vax = 1
floating_point_rep_value cray = 2
floating_point_rep_value ibm = 3

unfoldable pub floating_point_rep_of : ℕ → Result FloatingPointRep
floating_point_rep_of n =
    if n == 0
    then ok ieee
    else if n == 1
    then ok vax
    else if n == 2
    then ok cray
    else if n == 3
    then ok ibm
    else err value_error

-- class PacketType: the type of a PDU
pub data PacketType : Type 0 where
  request ping response fault working nocall reject ack cl_cancel fack cancel_ack bind bind_ack
        bind_nak alter_context alter_context_resp shutdown co_cancel orphaned :
      PacketType

abbrev pub packet_type_value : PacketType → ℕ
packet_type_value request = 0
packet_type_value ping = 1
packet_type_value response = 2
packet_type_value fault = 3
packet_type_value working = 4
packet_type_value nocall = 5
packet_type_value reject = 6
packet_type_value ack = 7
packet_type_value cl_cancel = 8
packet_type_value fack = 9
packet_type_value cancel_ack = 10
packet_type_value bind = 11
packet_type_value bind_ack = 12
packet_type_value bind_nak = 13
packet_type_value alter_context = 14
packet_type_value alter_context_resp = 15
packet_type_value shutdown = 17
packet_type_value co_cancel = 18
packet_type_value orphaned = 19

unfoldable pub packet_type_of : ℕ → Result PacketType
packet_type_of n =
    if n == 0
    then ok request
    else if n == 1
    then ok ping
    else if n == 2
    then ok response
    else if n == 3
    then ok fault
    else if n == 4
    then ok working
    else if n == 5
    then ok nocall
    else if n == 6
    then ok reject
    else if n == 7
    then ok ack
    else if n == 8
    then ok cl_cancel
    else if n == 9
    then ok fack
    else if n == 10
    then ok cancel_ack
    else if n == 11
    then ok bind
    else if n == 12
    then ok bind_ack
    else if n == 13
    then ok bind_nak
    else if n == 14
    then ok alter_context
    else if n == 15
    then ok alter_context_resp
    else if n == 17
    then ok shutdown
    else if n == 18
    then ok co_cancel
    else if n == 19
    then ok orphaned
    else err value_error

-- class SecurityProvider: the security provider of a trailer
pub data SecurityProvider : Type 0 where
  authn_none authn_gss_negotiate authn_winnt authn_gss_schannel authn_gss_kerberos authn_netlogon
        authn_default :
      SecurityProvider

abbrev pub security_provider_value : SecurityProvider → ℕ
security_provider_value authn_none = 0
security_provider_value authn_gss_negotiate = 9
security_provider_value authn_winnt = 10
security_provider_value authn_gss_schannel = 14
security_provider_value authn_gss_kerberos = 16
security_provider_value authn_netlogon = 68
security_provider_value authn_default = 255

unfoldable pub security_provider_of : ℕ → Result SecurityProvider
security_provider_of n =
    if n == 0
    then ok authn_none
    else if n == 9
    then ok authn_gss_negotiate
    else if n == 10
    then ok authn_winnt
    else if n == 14
    then ok authn_gss_schannel
    else if n == 16
    then ok authn_gss_kerberos
    else if n == 68
    then ok authn_netlogon
    else if n == 255
    then ok authn_default
    else err value_error

-- class AuthenticationLevel: the protection level of a trailer
pub data AuthenticationLevel : Type 0 where
  level_default level_none level_connect level_call level_pkt level_pkt_integrity
        level_pkt_privacy :
      AuthenticationLevel

abbrev pub authentication_level_value : AuthenticationLevel → ℕ
authentication_level_value level_default = 0
authentication_level_value level_none = 1
authentication_level_value level_connect = 2
authentication_level_value level_call = 3
authentication_level_value level_pkt = 4
authentication_level_value level_pkt_integrity = 5
authentication_level_value level_pkt_privacy = 6

unfoldable pub authentication_level_of : ℕ → Result AuthenticationLevel
authentication_level_of n =
    if n == 0
    then ok level_default
    else if n == 1
    then ok level_none
    else if n == 2
    then ok level_connect
    else if n == 3
    then ok level_call
    else if n == 4
    then ok level_pkt
    else if n == 5
    then ok level_pkt_integrity
    else if n == 6
    then ok level_pkt_privacy
    else err value_error

-- class ContextResultCode: the result for a presentation context
pub data ContextResultCode : Type 0 where
  acceptance user_rejection provider_rejection negotiate_ack : ContextResultCode

abbrev pub context_result_code_value : ContextResultCode → ℕ
context_result_code_value acceptance = 0
context_result_code_value user_rejection = 1
context_result_code_value provider_rejection = 2
context_result_code_value negotiate_ack = 3

unfoldable pub context_result_code_of : ℕ → Result ContextResultCode
context_result_code_of n =
    if n == 0
    then ok acceptance
    else if n == 1
    then ok user_rejection
    else if n == 2
    then ok provider_rejection
    else if n == 3
    then ok negotiate_ack
    else err value_error
