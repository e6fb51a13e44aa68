-- ===== src/Ip/Delivery.antt =====
-- What pkg/ip/protocol.go sends and delivers.
use go_network.Base.{
  Option-cases, inr, inl, Bool-cases, ℕ, ◌+◌, ◌≡◌, ◌≤◌, refl, ◌∙◌, arith, List, [], ◌∷◌, ◌++◌,
  length, ◌==◌, if◌then◌else◌, false, Option, none, some,
}
use go_network.Errors.{panic, Result, ok, err}
use go_network.Ip.Iface.{Iface}
use go_network.Ip.Header.{Header, data2header}
use go_network.Ip.Protocol.{
  rx_result, is_fragment, find_iface, is_for, is_registered, deliver_protos, rx_header, rx_packet,
  proto_register,
}

abbrev pub first_for : ℕ → List (Option Iface) → Option Iface
first_for dst [] = none
first_for dst (none ∷ candidates) = first_for dst candidates
first_for dst (some i ∷ candidates) = if is_for dst i then some i else first_for dst candidates

abbrev pub last_of : Option Iface → List (Option Iface) → Option Iface
last_of iface [] = iface
last_of iface (c ∷ candidates) = last_of c candidates

abbrev or_else : Option Iface → Option Iface → Option Iface
or_else none d = d
or_else (some i) d = some i

find_iface_loop :
    (dst : ℕ) (iface : Option Iface) (candidates : List (Option Iface))
    → find_iface dst iface candidates
      ≡ or_else (first_for dst candidates) (last_of iface candidates)
unfolding find_iface
find_iface_loop dst iface [] = refl
find_iface_loop dst iface (none ∷ candidates) = find_iface_loop dst none candidates
find_iface_loop dst iface (some i ∷ candidates) =
    ground (arith, find_iface_loop dst (some i) candidates)

-- The interface that RxHandler takes a packet for is the first one that the packet is for, and, if it
-- is for none, the last interface of the device.
pub find_iface_lem :
    (dst : ℕ) (candidates : List (Option Iface))
    → find_iface dst none candidates
      ≡ elim (first_for dst candidates) [ some i ↦ some i | none ↦ last_of none candidates ]
find_iface_lem dst candidates = find_iface_loop dst none candidates ∙ ground arith

abbrev pub count_type : ℕ → List ℕ → ℕ
count_type t [] = 0
count_type t (s ∷ protos) = if s == t then 1 + count_type t protos else count_type t protos

count_type-append :
    (t s : ℕ) (protos : List ℕ)
    → count_type t (protos ++ (s ∷ [])) ≡ count_type t protos + (if s == t then 1 else 0)
count_type-append t s [] = ground arith
count_type-append t s (p ∷ protos) = ground (arith, count_type-append t s protos)

unregistered : (t : ℕ) (protos : List ℕ) → is_registered t protos ≡ false → count_type t protos ≡ 0
unregistered t [] h = refl
unregistered t (s ∷ protos) h = ground (arith, unregistered t protos)

-- ProtoRegister keeps every type registered at most once.
pub proto_register_unique :
    (t s : ℕ) (protos : List ℕ)
    → ((u : ℕ) → count_type u protos ≤ 1)
    → count_type t (proto_register s protos).0 ≤ 1
unfolding proto_register
proto_register_unique t s protos h =
    let k = h t in ground (arith, k, unregistered s protos, count_type-append t s protos)

delivered_once :
    (protos : List ℕ) (hdr : Header) (payload : List ℕ) (iface : Iface)
    → length (deliver_protos protos hdr payload iface) ≡ count_type hdr.proto_type protos
unfolding deliver_protos
delivered_once [] hdr payload iface = refl
delivered_once (t ∷ protos) hdr payload iface =
    ground (arith, delivered_once protos hdr payload iface)

delivered_to_none :
    (protos : List ℕ) (hdr : Header) (payload : List ℕ) (iface : Iface)
    → count_type hdr.proto_type protos ≡ 0
    → deliver_protos protos hdr payload iface ≡ []
unfolding deliver_protos
delivered_to_none [] hdr payload iface e = refl
delivered_to_none (t ∷ protos) hdr payload iface e =
    ground (arith, e, delivered_to_none protos hdr payload iface)

-- The calls for a packet whose type is registered once: one, with its payload and its addresses.
pub delivered_to :
    (protos : List ℕ) (hdr : Header) (payload : List ℕ) (iface : Iface)
    → count_type hdr.proto_type protos ≡ 1
    → deliver_protos protos hdr payload iface
      ≡ record {
        proto = hdr.proto_type;
        payload = payload;
        src = hdr.src;
        dst = hdr.dst;
        iface = iface;
      }
        ∷ []
unfolding deliver_protos
delivered_to [] hdr payload iface e = ground (arith, e)
delivered_to (t ∷ protos) hdr payload iface e =
    ground
      (arith, e, delivered_to protos hdr payload iface, delivered_to_none protos hdr payload iface)

rx_header_once :
    (protos : List ℕ) (ifaces : List (Option Iface)) (hdr : Header) (payload : List ℕ)
    → ((u : ℕ) → count_type u protos ≤ 1)
    → length (rx_header protos ifaces hdr payload) ≤ 1
unfolding rx_header
rx_header_once protos ifaces hdr payload h =
    let k = h hdr.proto_type in
    elim (Bool-cases (is_fragment hdr)) [
      | inl part ↦ rw (rx_header, part) (omega arith)
      | inr whole ↦ elim (Option-cases (find_iface hdr.dst none ifaces)) [
        | inl nowhere ↦ rw (rx_header, whole, nowhere) (omega arith)
        | inr (i, here) ↦
            rw (rx_header, whole, here)
              (let e = delivered_once protos hdr payload i in omega (arith, e, k))
      ]
    ]

rx_result_once :
    (protos : List ℕ) (ifaces : List (Option Iface)) (r : Result (Header × List ℕ))
    → ((u : ℕ) → count_type u protos ≤ 1)
    → length (rx_result protos ifaces r) ≤ 1
unfolding rx_result
rx_result_once protos ifaces (ok p) h = rx_header_once protos ifaces p.0 p.1 h
rx_result_once protos ifaces (err e) h = omega arith
rx_result_once protos ifaces panic h = omega arith

-- Where every type is registered at most once, a packet reaches at most one upper protocol, and that
-- at most once.
pub rx_packet_once :
    (protos : List ℕ) (ifaces : List (Option Iface)) (bytes : List ℕ)
    → ((u : ℕ) → count_type u protos ≤ 1)
    → length (rx_packet protos ifaces bytes) ≤ 1
unfolding rx_packet
rx_packet_once protos ifaces bytes h = rx_result_once protos ifaces (data2header bytes) h
