-- ===== src/Client/KeyCache/LoadKey.antt =====
-- KeyCache.load_key of src/dpapi_ng/_client.py.
pub mod Serve
use Prim.Native.String.{String}
use dpapi_ng.Base.{
  ℕ, Bool, true, false, ◌&&◌, Option, none, some, List, [], ◌∷◌, bytes_eq, if◌then◌else◌, Result,
  ok, err, ◌>>=◌, insert,
}
use dpapi_ng.Bytes.{Bytes}
use dpapi_ng.Bytes.Text.{Text, text}
use dpapi_ng.Bytes.Uuid.{Uuid, uuid_eq}
use dpapi_ng.Gkdi.KdfParameters as Kdf
use dpapi_ng.Gkdi.PublicKey.Ffcdh.{FfcdhParameters, pack_parameters}
use dpapi_ng.Client.KeyCache.{RootKey, KeyCache}

-- RFC 5114 - 2.3. 2048-bit MODP Group with 256-bit Prime Order Subgroup
abbrev pub default_parameters : FfcdhParameters
default_parameters = record {
  key_length = 256;
  field_order =
      17125458317614137930196041979257577826408832324037508573393292981642667139747621778802438775238728592968344613589379932348475613503476932163166973813218698343816463289144185362912602522540494983090531497232965829536524507269848825658311420299335922295709743267508322525966773950394919257576842038771632742044142471053509850123605883815857162666917775193496157372656195558305727009891276006514000409365877218171388319923896309377791762590614311849642961380224851940460421710449368927252974870395873936387909672274883295377481008150475878590270591798350563488168080923804611822387520198054002990623911454389104774092183;
  generator =
      8041367327046189302693984665026706374844608289874374425728797669509435881459140662650215832833471328470334064628508692231999401840332046192569287351991689963279656892562484773278584208040987631569628520464069532361274047374444344996651832979378318849943741662110395995778429270819222431610927356005913836932462099770076239554042855287138026806960470277326229482818003962004453764400995790974042663675692120758726145869061236443893509136147942414445551848162391468541444355707785697825741856849161233887307017428371823608125699892904960841221593344499088996021883972185241854777608212592397013510086894908468466292313;
}

abbrev pub default_kdf : Kdf.KdfParameters
default_kdf = record { hash_name = text "SHA512" }

-- `not value` of optional bytes
abbrev pub is_missing : Option Bytes → Bool
is_missing none = true
is_missing (some []) = true
is_missing (some (b ∷ bs)) = false

abbrev given : Option Bytes → Bytes
given none = []
given (some bs) = bs

unfoldable pub kdf_parameters_of : Option Bytes → Result Bytes
kdf_parameters_of kdf_parameters =
    if is_missing kdf_parameters then Kdf.pack default_kdf else ok (given kdf_parameters)

unfoldable pub secret_parameters_of : Text → Option Bytes → Result (Option Bytes)
secret_parameters_of secret_algorithm secret_parameters =
    if bytes_eq secret_algorithm (text "DH") && is_missing secret_parameters
    then (do packed ← pack_parameters default_parameters; ok (some packed))
    else ok secret_parameters

-- The arguments of load_key beside the root key identifier.
pub record LoadKey : Type 0 where
  pub key : Bytes
  pub version : ℕ
  pub kdf_algorithm : Text
  pub kdf_parameters : Option Bytes
  pub secret_algorithm : Text
  pub secret_parameters : Option Bytes
  pub private_key_length : ℕ
  pub public_key_length : ℕ

abbrev pub root_key_of : LoadKey → Bytes → Option Bytes → RootKey
root_key_of a kdf_parameters secret_parameters = record {
  key = a.key;
  version = a.version;
  kdf_algorithm = a.kdf_algorithm;
  kdf_parameters = kdf_parameters;
  secret_algorithm = a.secret_algorithm;
  secret_parameters = secret_parameters;
  private_key_length = a.private_key_length;
  public_key_length = a.public_key_length;
}

unfoldable pub load_key : Uuid → LoadKey → KeyCache → Result KeyCache
load_key root_key_id a cache = do
  kdf_parameters ← kdf_parameters_of a.kdf_parameters
  secret_parameters ← secret_parameters_of a.secret_algorithm a.secret_parameters
  ok (record cache {
    root_keys = insert root_key_id (root_key_of a kdf_parameters secret_parameters) cache.root_keys;
  })
