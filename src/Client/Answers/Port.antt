-- ===== src/Client/Answers/Port.antt =====
-- _process_ept_map_result of src/dpapi_ng/_client.py on what EptMapResult.pack writes.
use dpapi_ng.Base.{
  ℕ, ◌≡◌, ◌≢◌, refl, arith, inl, inr, ◌==◌, List, [], ◌∷◌, ◌++◌, map, All, Option, none, some,
  if◌then◌else◌, Result, ok, err, >>=-eq-ok, Bool-cases, ==_iff, value_error,
}
use dpapi_ng.Bytes.{Bytes}
use dpapi_ng.Rpc.Stub.{Response}
use dpapi_ng.Epm.Floor.{Floor, FloorKind, plain_floor, tcp_floor, ip_floor, rpc_floor, uuid_floor}
use dpapi_ng.Epm.Floor.RoundTrip.{filled}
use dpapi_ng.Epm.Map.{EptMapResult, pack_ept_map_result, unpack_ept_map_result}
use dpapi_ng.Epm.Map.Answer.{FitsResult, unpack-pack_ept_map_result}
use dpapi_ng.Client.Answers.{
  tcp_port, or_next, port_in, first_port, port_or_error, process_ept_map_result,
}

-- What a list gives where R relates an element to what that has: some b for a place where the
-- element there has b and no element in front of it has anything, none where no element has.
abbrev pub First {ℓ κ} :
    {A : Type ℓ} {B : Type κ} → (A → Option B → Type ℓ) → List A → Option B → Type ℓ
First R xs none = All (λ x. R x none) xs
First {A = A} R xs (some b) =
    (front : List A) × (x : A) × (back : List A) × (xs ≡ front ++ (x ∷ back))
    × All (λ y. R y none) front
    × R x (some b)

-- A floor of this kind is a TCP floor with the port, or no TCP floor.
abbrev pub HasPort : FloorKind → Option ℕ → Type 0
HasPort kind none = (port : ℕ) → kind ≢ tcp_floor port
HasPort kind (some port) = kind ≡ tcp_floor port

abbrev pub IsTcp : Floor → Option ℕ → Type 0
IsTcp floor = HasPort floor.kind

First-cons {ℓ} :
    {A : Type ℓ} (R : A → Option ℕ → Type ℓ) (x : A) (xs : List A) (here there : Option ℕ)
    → R x here
    → First R xs there
    → First R (x ∷ xs) (or_next here there)
First-cons R x xs (some port) there r h = ([], x, xs, refl, tt, r)
First-cons R x xs none none r h = (r, h)
First-cons R x xs none (some port) r (front, y, back, e, none_in_front, r_y) =
    (x ∷ front, y, back, rw e refl, (r, none_in_front), r_y)

tcp_port-HasPort : (kind : FloorKind) → HasPort kind (tcp_port kind)
tcp_port-HasPort (tcp_floor port) = refl
tcp_port-HasPort (plain_floor protocol) = λ port. ground arith
tcp_port-HasPort (ip_floor addr) = λ port. ground arith
tcp_port-HasPort (rpc_floor version_minor) = λ port. ground arith
tcp_port-HasPort (uuid_floor uuid version version_minor) = λ port. ground arith

port_in-First : (tower : List Floor) → First IsTcp tower (port_in tower)
unfolding port_in
port_in-First [] = tt
port_in-First (floor ∷ tower) =
    First-cons IsTcp floor tower _ _ (tcp_port-HasPort floor.kind) (port_in-First tower)

first_port-First : (towers : List (List Floor)) → First (First IsTcp) towers (first_port towers)
unfolding first_port
first_port-First [] = tt
first_port-First (tower ∷ towers) =
    First-cons (First IsTcp) tower towers _ _ (port_in-First tower) (first_port-First towers)

-- What an answer of the endpoint mapper stands for.
pub data IsAnswer (r : EptMapResult) : Result ℕ → Type 0 where
  failed : r.status ≢ 0 → IsAnswer r (err value_error)
  no_port : r.status ≡ 0 → First (First IsTcp) r.towers none → IsAnswer r (err value_error)
  with_port :
      {port : ℕ} → r.status ≡ 0 → First (First IsTcp) r.towers (some port) → IsAnswer r (ok port)

port_in-filled : (tower : List Floor) → port_in (map filled tower) ≡ port_in tower
unfolding port_in filled
port_in-filled [] = refl
port_in-filled (f ∷ tower) = rw (port_in-filled tower)

first_port-filled :
    (towers : List (List Floor)) → first_port (map (map filled) towers) ≡ first_port towers
unfolding first_port
first_port-filled [] = refl
first_port-filled (t ∷ towers) = rw (port_in-filled t, first_port-filled towers)

-- The response with these stub data.
abbrev pub answered : Response → Bytes → Response
answered response stub_data = record response { stub_data = stub_data }

port_or_error-IsAnswer :
    (r : EptMapResult) (port : Option ℕ)
    → r.status ≡ 0
    → First (First IsTcp) r.towers port
    → IsAnswer r (port_or_error port)
port_or_error-IsAnswer r none e h = no_port e h
port_or_error-IsAnswer r (some port) e h = with_port e h

status-IsAnswer :
    (r : EptMapResult)
    → IsAnswer r (if r.status == 0 then port_or_error (first_port r.towers) else err value_error)
status-IsAnswer r = elim (Bool-cases (r.status == 0)) [
  | inl e ↦
      let f : r.status ≡ 0 = (==_iff r.status 0).0 e in
      rw e (port_or_error-IsAnswer r (first_port r.towers) f (first_port-First r.towers))
  | inr e ↦ rw e (failed (ground arith))
]

-- For an EptMapResult with numbers in range, an entry handle that is none or not zero, floors of
-- less than 64 KiB, plain ones of a protocol without a class of its own, and towers whose lengths
-- leave 1 to 4 modulo 8: packing succeeds, and _process_ept_map_result on a response with the
-- packed octets raises ValueError if the status is not 0 or no tower has a TCP floor, and else
-- returns the port of a TCP floor, where no earlier floor of its tower is a TCP floor, and no
-- floor of an earlier tower.
pub process_ept_map_result-pack_ept_map_result :
    (response : Response) (r : EptMapResult)
    → FitsResult r
    → (stub_data : Bytes) × (pack_ept_map_result r ≡ ok stub_data)
      × IsAnswer r (process_ept_map_result (answered response stub_data))
unfolding process_ept_map_result
process_ept_map_result-pack_ept_map_result response r h =
    let (stub_data, made, read) =
      >>=-eq-ok (pack_ept_map_result r) unpack_ept_map_result (unpack-pack_ept_map_result r h) in
    (stub_data, made, rw (read, first_port-filled r.towers) (status-IsAnswer r))
