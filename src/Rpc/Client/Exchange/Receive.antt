-- ===== src/Rpc/Client/Exchange/Receive.antt =====
-- The receive loop of SyncRpcClient._send_pdu of src/dpapi_ng/_rpc/_client.py: what it returns on a
-- stream, and that a closed connection keeps it busy.
use dpapi_ng.Base.{
  ℕ, zero, suc, ◌+◌, ◌-◌, ◌<◌, ◌≤◌, ◌≡◌, refl, sym, ◌∙◌, ap, arith, false, ◌==◌, [], ◌∷◌, ◌++◌,
  length, length-append, ok, err, out_of_fuel,
}
use dpapi_ng.Bytes.{Bytes}
use dpapi_ng.Rpc.Client.Exchange.{Socket, receive}

-- A stream: recv takes some bytes from the front of those that are on their way, as many as are
-- asked for or fewer, and at least one where there is one.
pub record IsStream {T : Type 0} (socket : Socket T) (pending : T → Bytes) : Type 0 where
  pub recv :
      (t : T) (size : ℕ)
      → 0 < size
      → 0 < length (pending t)
      → (read : Bytes) × (t' : T) × (socket.recv size t ≡ (t', ok read))
        × (pending t ≡ read ++ pending t')
        × (0 < length read)
        × (length read ≤ size)

-- A part of what comes first is a part of the front.
split_front :
    (read more front rest : Bytes)
    → read ++ more ≡ front ++ rest
    → length read ≤ length front
    → (left : Bytes) × (front ≡ read ++ left) × (more ≡ left ++ rest)
split_front [] more front rest e h = (front, refl, e)
split_front (x ∷ read) more [] rest e h = absurd (omega arith)
split_front (x ∷ read) more (y ∷ front) rest e h =
    let tail : read ++ more ≡ front ++ rest = cc in
    let (left, a, b) = split_front read more front rest tail (omega arith) in (left, cc, b)

module _ {T : Type 0} (socket : Socket T) where
  -- A round of the loop.
  receive_round :
      (fuel size : ℕ) (t t1 t2 : T) (read left : Bytes)
      → 0 < size
      → socket.recv size t ≡ (t1, ok read)
      → receive socket fuel (size - length read) t1 ≡ (t2, ok left)
      → receive socket (suc fuel) size t ≡ (t2, ok (read ++ left))
  unfolding receive
  receive_round fuel size t t1 t2 read left h got others =
      let some_left : (size == 0) ≡ false = ground arith in rw (some_left, got, others)

  -- On a connection that the peer has closed, where recv returns no octets any more, the loop
  -- of _send_pdu does not end while it still wants octets: no number of rounds is enough.
  pub receive_closed :
      (fuel size : ℕ) (t : T)
      → 0 < size
      → ((n : ℕ) → socket.recv n t ≡ (t, ok []))
      → receive socket fuel size t ≡ (t, err out_of_fuel)
  unfolding receive
  receive_closed zero size t h closed = refl
  receive_closed (suc fuel) size t h closed =
      let some_left : (size == 0) ≡ false = ground arith in
      let remains : size - 0 ≡ size = omega arith in
      rw (some_left, closed size, remains, receive_closed fuel size t h closed)

module _ {T : Type 0} (socket : Socket T) (pending : T → Bytes)
    (stream : IsStream socket pending) where
  -- On a stream, where recv takes at least one octet and at most as many as are asked for from
  -- the front of those on their way: if the octets on their way begin with those that the loop
  -- of _send_pdu is asked for, it returns just these in no more rounds than they are and one,
  -- however recv splits them, and leaves what follows.
  pub receive_all :
      (fuel : ℕ) (t : T) (packet rest : Bytes)
      → pending t ≡ packet ++ rest
      → length packet < fuel
      → (t' : T) × (receive socket fuel (length packet) t ≡ (t', ok packet)) × (pending t' ≡ rest)
  unfolding receive
  receive_all zero t packet rest e h = absurd (omega arith)
  receive_all (suc fuel) t [] rest e h = (t, refl, e)
  receive_all (suc fuel) t (x ∷ packet) rest e h =
      let (read, t1, got, front, some_read, few) =
        stream.recv t (length (x ∷ packet)) (omega arith) (omega (arith, ap length e)) in
      let (left, a, b) = split_front read (pending t1) (x ∷ packet) rest (sym front ∙ e) few in
      let size : length (x ∷ packet) ≡ length read + length left =
        omega (arith, ap length a, length-append read left) in
      let (t2, rest_read, at_end) = receive_all fuel t1 left rest b (omega arith) in
      let remains : length (x ∷ packet) - length read ≡ length left = omega arith in
      let round =
        receive_round socket fuel (length (x ∷ packet)) t t1 t2 read left (omega arith) got
          (ap (λ n. receive socket fuel n t1) remains ∙ rest_read) in
      (t2, round ∙ ap (λ xs. (t2, ok xs)) (sym a), at_end)
