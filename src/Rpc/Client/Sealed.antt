-- ===== src/Rpc/Client/Sealed.antt =====
-- RpcClient._prepare_pdu and _process_response of src/dpapi_ng/_rpc/_client.py: an encrypted packet
-- that one end makes and the other one takes.
pub mod Request
use dpapi_ng.Base.{
  ℕ, ◌+◌, ◌-◌, ◌<◌, ◌≤◌, ◌≡◌, sym, ap, ◌∙◌, arith, ◌==◌, ==_refl, Bool, false, some, ◌++◌,
  append-nil, length, slice, take, drop, take-append, drop-append, drop-add, length-append, ok,
  ◌>>=◌,
}
use dpapi_ng.Bytes.{Bytes}
use dpapi_ng.Rpc.Pdu.{PduHeader}
use dpapi_ng.Rpc.Auth.{SpnegoContext, AuthenticationProvider, wrap, unwrap}
use dpapi_ng.Rpc.Client.{RpcClient, seal}
use dpapi_ng.Rpc.Client.Incoming.{place, replace, unseal}

-- A packet with the head of a request, its stub data, the head of the trailer and the signature.
abbrev pub packet_of : Bytes → Bytes → Bytes → Bytes → Bytes
packet_of head body trailer signature = head ++ (body ++ (trailer ++ signature))

place-inside : (n k : ℕ) → k ≤ n → place n n k ≡ n - k
place-inside n k h = ground arith

take-front : (n : ℕ) (xs ys : Bytes) → length xs ≡ n → take n (xs ++ ys) ≡ xs
take-front n xs ys e = rw (← e) (take-append xs ys)

drop-front : (n : ℕ) (xs ys : Bytes) → length xs ≡ n → drop n (xs ++ ys) ≡ ys
drop-front n xs ys e = rw (← e) (drop-append xs ys)

module _ (head body trailer signature : Bytes) (h24 : length head ≡ 24)
    (h8 : length trailer ≡ 8) where
  abbrev packet : Bytes
  packet = packet_of head body trailer signature

  abbrev stop : ℕ
  stop = 24 + length body

  head_part : slice 0 24 packet ≡ head
  head_part = take-front 24 head _ h24

  body_part : slice 24 stop packet ≡ body
  body_part =
      let e : stop - 24 ≡ length body = omega arith in
      rw (e, drop-front 24 head _ h24) (take-append body (trailer ++ signature))

  drop-stop : drop stop packet ≡ trailer ++ signature
  drop-stop =
      rw (
        drop-add 24 (length body),
        drop-front 24 head _ h24,
        drop-append body (trailer ++ signature),
      )

  trailer_part : slice stop (stop + 8) packet ≡ trailer
  trailer_part =
      let e : stop + 8 - stop ≡ 8 = omega arith in
      rw (e, drop-stop) (take-front 8 trailer signature h8)

  signature_part : drop (stop + 8) packet ≡ signature
  signature_part = rw (drop-add stop 8, drop-stop) (drop-front 8 trailer signature h8)

  replaced :
      (stub : Bytes)
      → length stub ≡ length body
      → replace 24 stop stub packet ≡ ok (packet_of head stub trailer signature)
  unfolding replace
  replaced stub e =
      let e' : stop - 24 ≡ length body = omega arith in
      rw (e', e, ==_refl (length body), take-front 24 head _ h24, drop-stop)

  size : length packet ≡ stop + 8 + length signature
  size = omega (
    arith,
    length-append head (body ++ (trailer ++ signature)),
    length-append body (trailer ++ signature),
    length-append trailer signature,
  )

-- Two contexts agree on a packet: what one wraps, to a body of the same size and a signature, is
-- what the other one unwraps.
pub record Agree {S : Type 0} (spnego : SpnegoContext S) (sign : Bool)
    (head body trailer encrypted signature : Bytes) (a a' b b' : S) : Type 0 where
  pub wrapped : spnego.wrap_iov sign head body trailer a ≡ (a', ok (some encrypted, some signature))
  pub unwrapped : spnego.unwrap_iov sign head encrypted trailer signature b ≡ (b', ok (some body))
  pub same_size : length encrypted ≡ length body

module _ {S : Type 0} (spnego : SpnegoContext S) (head body trailer encrypted signature : Bytes)
    (h24 : length head ≡ 24) (h8 : length trailer ≡ 8) (sender receiver : RpcClient S)
    (pa pb : AuthenticationProvider S) (a' b' : S)
    (agree : Agree spnego sender.sign_header head body trailer encrypted signature pa.ctx a' pb.ctx
      b') where
  seal-packet :
      (blank : Bytes)
      → seal spnego
          (some pa)
          (some (24, 24 + length body))
          (packet_of head body trailer blank)
          sender
        ≡ (
          record sender { auth = some (record pa { ctx = a' }) },
          ok (packet_of head encrypted trailer signature),
        )
  unfolding seal wrap
  seal-packet blank = rw (
    head_part head body trailer blank h24 h8,
    body_part head body trailer blank h24 h8,
    trailer_part head body trailer blank h24 h8,
    agree.wrapped,
    append-nil,
  )

  unseal-packet :
      (header : PduHeader) (until : ℕ)
      → receiver.sign_header ≡ sender.sign_header
      → 0 < header.auth_len
      → length signature ≡ header.auth_len
      → header.frag_len ≡ length (packet_of head encrypted trailer signature)
      → unseal spnego header
          (some pb)
          (some (24, until))
          (packet_of head encrypted trailer signature)
          receiver
        ≡ (
          record receiver { auth = some (record pb { ctx = b' }) },
          ok (packet_of head body trailer signature),
        )
  unfolding unseal unwrap
  unseal-packet header until same_sign some_auth sig_len frag_len =
      let n = length (packet_of head encrypted trailer signature) in
      let total = size head encrypted trailer signature h24 h8 in
      let trailer_place : place n n (header.auth_len + 8) ≡ 24 + length encrypted =
        place-inside n (header.auth_len + 8) (omega arith) ∙ omega arith in
      let signature_place : place n n header.auth_len ≡ 24 + length encrypted + 8 =
        place-inside n header.auth_len (omega arith) ∙ omega arith in
      let with_auth : (header.auth_len == 0) ≡ false = ground arith in
      rw (
        with_auth,
        frag_len,
        trailer_place,
        signature_place,
        same_sign,
        head_part head encrypted trailer signature h24 h8,
        body_part head encrypted trailer signature h24 h8,
        trailer_part head encrypted trailer signature h24 h8,
        signature_part head encrypted trailer signature h24 h8,
        agree.unwrapped,
        replaced head encrypted trailer signature h24 h8 body (sym agree.same_size),
      )

  -- For a packet of 24 octets before the stub data and eight octets of trailer head behind it,
  -- and two peers whose security contexts agree on it (the body that one wraps, to as many
  -- octets and a signature, is what the other one unwraps) and whose clients sign headers
  -- alike; where the answer's header gives the length of the signature, which is not 0, and of
  -- the whole packet: what _process_response makes of what _prepare_pdu sends is the packet
  -- with its stub data in the clear and the signature.
  pub unseal-seal :
      (header : PduHeader) (until : ℕ) (blank : Bytes)
      → receiver.sign_header ≡ sender.sign_header
      → 0 < header.auth_len
      → length signature ≡ header.auth_len
      → header.frag_len ≡ length (packet_of head encrypted trailer signature)
      → ((seal spnego
            (some pa)
            (some (24, 24 + length body))
            (packet_of head body trailer blank)
            sender).1
          >>= λ sealed. (unseal spnego header (some pb) (some (24, until)) sealed receiver).1)
        ≡ ok (packet_of head body trailer signature)
  unseal-seal header until blank same_sign some_auth sig_len frag_len =
      rw (seal-packet blank)
        (ap (λ r. r.1) (unseal-packet header until same_sign some_auth sig_len frag_len))
