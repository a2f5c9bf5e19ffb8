-- ===== src/Lib.antt =====
-- The verification library of dpapi-ng (src/dpapi_ng), a client of the DPAPI-NG protection of
-- Windows domains. A blob is encrypted under a key encryption key, which is derived from a group
-- key of a domain's root key. A client gets the group key from a domain controller by the GetKey
-- call of MS-GKDI over DCE/RPC, or from a root key that it holds, and keeps it in a cache.
--
-- Base has what all files share: tests on numbers, lists with Python's slices, dictionaries as
-- association lists, the exceptions (Result), signed integers. Bytes has the standard library's
-- conversions: int.to_bytes and int.from_bytes (Bytes), UUID objects (Bytes/Uuid), UTF-16 and
-- UTF-8 (Bytes/Text, Bytes/Utf8). A str is the list of its code points.
--
-- Blob/KeyIdentifier: class KeyIdentifier of src/dpapi_ng/_blob.py.
--
-- Crypto: kdf and kdf_concat of src/dpapi_ng/_crypto.py. What the package cryptography computes
-- is a parameter (Kdfs), as are its elliptic curves (Curves in Gkdi/Kek).
--
-- Gkdi: src/dpapi_ng/_gkdi.py. Gkdi/Derive has compute_l1_key and compute_l2_key, whose two while
-- loops run on fuel; the fuel is 2 ^ 33 rounds, more than a loop can make before its index leaves
-- the signed 32-bit range of the context. Gkdi/Derive/Chain states the key hierarchy, the
-- specification of these functions. Gkdi/Envelope, Gkdi/KdfParameters, Gkdi/PublicKey and
-- Gkdi/GetKey have the structures with pack and unpack; Gkdi/Kek has compute_kek,
-- compute_public_key, get_kek and new_kek, with os.urandom as an argument.
--
-- Client/KeyCache: RootKey and KeyCache of src/dpapi_ng/_client.py, with load_key
-- (Client/KeyCache/LoadKey), _get_key and _store_key as functions from a cache to a cache and a
-- result. Client/KeyCache/View gives the abstract view: a partial function of the root key, the
-- descriptor and the L0 index.
--
-- Rpc: src/dpapi_ng/_rpc/_pdu.py, _bind.py and _request.py. Rpc/Packet has pack and PDU.unpack
-- over all packets. Rpc/Verification: src/dpapi_ng/_rpc/_verification.py, where the loop over the
-- commands runs on fuel, one round for each command.
--
-- Dns: _get_highest_answer and lookup_dc of src/dpapi_ng/_dns.py. The resolver is a parameter.
--
-- SecurityDescriptor: src/dpapi_ng/_security_descriptor.py. The decimal digits of Unicode, which
-- the pattern of a SID and int() take, are a parameter.
--
-- Asn1: src/dpapi_ng/_asn1.py. Asn1/Tag and Asn1/Header have tags and headers, Asn1/Integer,
-- Asn1/Oid and Asn1/Strings the values, Asn1/Reader the class ASN1Reader as functions from a view
-- to a value and the rest of the view, and Asn1/Writer the class ASN1Writer, whose with blocks
-- are a function between push and exit. The loops run on fuel: one round for each octet of the
-- view where they read, and one round more than the number where they divide it until nothing is
-- left.
--
-- Pkcs7: src/dpapi_ng/_pkcs7.py, the unpack functions; the loop over the recipients makes one
-- round for each octet at most.
--
-- Blob/DpapingBlob: class DPAPINGBlob of src/dpapi_ng/_blob.py with pack and unpack, on Asn1 and
-- Pkcs7.
--
-- Crypto/Content: cek_generate, cek_encrypt, cek_decrypt, content_encrypt and content_decrypt of
-- src/dpapi_ng/_crypto.py. AES key wrap and AES-GCM are a parameter (Ciphers), with their laws in
-- Crypto/Content/Laws: what is encrypted is decrypted, and the documented lengths.
--
-- Client/Secret: _encrypt_blob and _decrypt_blob of src/dpapi_ng/_client.py, with the random
-- bytes as arguments. Client/Clock: _get_protection_gke_from_cache, with time.time_ns() as an
-- argument and the division of floats as a rounding to 53 bits. Client/Protect:
-- ncrypt_protect_secret and ncrypt_unprotect_secret, which compose the cache, the clock, the blob
-- and the network; the network is a record of two operations (Network), which Client/Fetch fills.
--
-- Epm: src/dpapi_ng/_epm.py, with the floors (Epm/Floor), the towers and the entry handle
-- (Epm/Tower), and EptMap and EptMapResult (Epm/Map).
--
-- Rpc/Auth and Rpc/Client: src/dpapi_ng/_rpc/_auth.py and _rpc/_client.py. A call is a function
-- from a state to a state and a result (Rpc/Action). Rpc/Client has what RpcClient makes of
-- requests, Rpc/Client/Incoming what it takes from answers, and Rpc/Client/Exchange the class
-- SyncRpcClient. The socket and the security context are parameters (Socket, SpnegoContext). The
-- receive loop runs on fuel, a round for each recv_into, which takes an octet at least, and a
-- last one to find nothing missing, so that 65536 rounds are enough for any packet; the exchange
-- of tokens runs on fuel that the caller gives, since the peer decides how many there are.
--
-- Client/Answers and Client/Fetch: the contexts and requests of src/dpapi_ng/_client.py,
-- _process_bind_result, _process_ept_map_result, _process_get_key_result and _sync_get_key, which
-- fills the interface Network of Client/Protect.
--
-- Tests has the theorems at concrete inputs.
--
-- Not modelled: the async functions and AsyncRpcClient, which do what their twins do with await;
-- the closing of connections. Messages of exceptions, the names of enum members and __repr__ are
-- left out.
pub mod Base
pub mod Bytes
pub mod Blob
pub mod Crypto
pub mod Asn1
pub mod Pkcs7
pub mod Gkdi
pub mod Rpc
pub mod Dns
pub mod SecurityDescriptor
pub mod Client
pub mod Epm
pub mod Tests
