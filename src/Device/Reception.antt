-- ===== src/Device/Reception.antt =====
-- The frames that the loop of RxHandler of pkg/device/ethernet.go reads into its buffer.
use go_network.Base.{
  ℕ, zero, suc, ◌+◌, ◌-◌, ◌≤◌, ◌≡◌, refl, ap, ◌∙◌, arith, List, [], ◌∷◌, ◌++◌, length, length-set,
  take, drop, set, ltb, true, false, some, IsU8, IsU16,
}
use go_network.Errors.{returns}
use go_network.Wire.{copy_at}
use go_network.Net.Protocol.{Proto, Slice, received, device_input}
use go_network.Device.EtherAddr.{EtherAddr}
use go_network.Device.Frame.{EtherHeader, ether_header_size, header2data, data2header, read_header}
use go_network.Device.Kinds.{Ether, is_mine, fill, rx_header, ether_rx, contents, slice_bytes}

copy_at_behind :
    (b : ℕ) (buf : List ℕ) (i : ℕ) (xs : List ℕ)
    → copy_at (b ∷ buf) (suc i) xs ≡ b ∷ copy_at buf i xs
unfolding copy_at
copy_at_behind b buf i [] = refl
copy_at_behind b buf i (x ∷ xs) = copy_at_behind b (set buf i x) (suc i) xs

-- A copy to the front of a buffer that has the room.
copy_at_front :
    (buf xs : List ℕ) → length xs ≤ length buf → copy_at buf 0 xs ≡ xs ++ drop (length xs) buf
unfolding copy_at
copy_at_front buf [] h = refl
copy_at_front [] (x ∷ xs) h = absurd (omega arith)
copy_at_front (b ∷ buf) (x ∷ xs) h =
    copy_at_behind x buf 0 xs ∙ ap (◌∷◌ x) (copy_at_front buf xs (omega arith))

take-append : (xs ys : List ℕ) → take (length xs) (xs ++ ys) ≡ xs
take-append [] ys = refl
take-append (x ∷ xs) ys = ap (◌∷◌ x) (take-append xs ys)

abbrev pub IsEtherAddr : EtherAddr → Type 0
IsEtherAddr a = IsU8 a.a0 × IsU8 a.a1 × IsU8 a.a2 × IsU8 a.a3 × IsU8 a.a4 × IsU8 a.a5

-- data2header gives back what header2data was given, behind any bytes of the buffer that follow.
pub data2header-header2data :
    (hdr : EtherHeader) (payload rest : List ℕ)
    → IsEtherAddr hdr.src
    → IsEtherAddr hdr.dst
    → IsU16 hdr.typ
    → data2header (header2data hdr payload ++ rest) ≡ (hdr, payload ++ rest)
unfolding data2header header2data read_header
data2header-header2data hdr payload rest (s0, s1, s2, s3, s4, s5) (d0, d1, d2, d3, d4, d5) t =
    ground arith

pub length-copy_at : (buf : List ℕ) (i : ℕ) (xs : List ℕ) → length (copy_at buf i xs) ≡ length buf
unfolding copy_at
length-copy_at buf i [] = refl
length-copy_at buf i (x ∷ xs) = length-copy_at (set buf i x) (suc i) xs ∙ length-set buf i x

length-header2data :
    (hdr : EtherHeader) (payload : List ℕ)
    → length (header2data hdr payload) ≡ ether_header_size + length payload
unfolding header2data
length-header2data hdr payload = omega arith

buf-fill :
    (e : Ether) (hdr : EtherHeader) (payload : List ℕ)
    → ether_header_size + length payload ≤ length e.buf
    → (fill e (header2data hdr payload)).buf
      ≡ header2data hdr payload ++ drop (length (header2data hdr payload)) e.buf
unfolding fill
buf-fill e hdr payload h =
    copy_at_front e.buf (header2data hdr payload) (omega (arith, length-header2data hdr payload))

take-append-le : (n : ℕ) (xs ys : List ℕ) → n ≤ length xs → take n (xs ++ ys) ≡ take n xs
take-append-le zero xs ys h = refl
take-append-le (suc n) [] ys h = absurd (omega arith)
take-append-le (suc n) (x ∷ xs) ys h = ap (◌∷◌ x) (take-append-le n xs ys (omega arith))

take_all : (xs : List ℕ) → take (length xs) xs ≡ xs
take_all [] = refl
take_all (x ∷ xs) = ap (◌∷◌ x) (take_all xs)

contents-fill :
    (e : Ether) (hdr : EtherHeader) (payload : List ℕ) (n : ℕ)
    → ether_header_size + length payload ≤ length e.buf
    → n ≤ length payload
    → contents (fill e (header2data hdr payload)) n ≡ take n payload
unfolding contents header2data
contents-fill e hdr payload n h k =
    rw (contents, buf-fill e hdr payload h) (take-append-le n payload _ k)

-- What ether_rx does with a frame: it fills the buffer, and passes on what is for this device.
ether_rx_lem :
    (ptr : ℕ) (e : Ether) (hdr : EtherHeader) (payload : List ℕ) (protos : List Proto)
    → ether_header_size + length payload ≤ length e.buf
    → IsEtherAddr hdr.src
    → IsEtherAddr hdr.dst
    → IsU16 hdr.typ
    → ether_rx ptr e (some (header2data hdr payload)) protos ≡ (
      fill e (header2data hdr payload),
      elim (is_mine e hdr) [
        | true ↦
            device_input hdr.typ
              (record { slice = received ptr (length payload); dev = ptr })
              protos
        | false ↦ returns protos
      ],
    )
unfolding ether_rx rx_header
ether_rx_lem ptr e hdr payload protos h s d t =
    let long : ltb (length (header2data hdr payload)) ether_header_size ≡ false =
      ground (arith, length-header2data hdr payload) in
    let rest : length (header2data hdr payload) - ether_header_size ≡ length payload =
      omega (arith, length-header2data hdr payload) in
    let opened : (data2header (fill e (header2data hdr payload)).buf).0 ≡ hdr =
      rw (buf-fill e hdr payload h) (ap (λ r. r.0) (data2header-header2data hdr payload _ s d t)) in
    let read = fill e (header2data hdr payload) in
    rw (long) (
      ap (λ r. (read, r))
        (ap (λ opened. rx_header ptr read opened (length (header2data hdr payload)) protos) opened
          ∙ unfold fill in
            ap
              (λ n. elim (is_mine e hdr) [
                | true ↦ device_input hdr.typ (record { slice = received ptr n; dev = ptr }) protos
                | false ↦ returns protos
              ])
              rest))

-- A frame of the buffer's size at most that a device reads: it goes to the protocol of its type if it is
-- for the device's address or for all, and to none otherwise, and the payload can be read in the buffer.
pub ether_rx-header2data :
    (ptr : ℕ) (e : Ether) (hdr : EtherHeader) (payload : List ℕ) (protos : List Proto)
    → ether_header_size + length payload ≤ length e.buf
    → IsEtherAddr hdr.src
    → IsEtherAddr hdr.dst
    → IsU16 hdr.typ
    → let (after, passed) = ether_rx ptr e (some (header2data hdr payload)) protos in
      (passed ≡ elim (is_mine e hdr) [
        | true ↦
            device_input hdr.typ
              (record { slice = received ptr (length payload); dev = ptr })
              protos
        | false ↦ returns protos
      ])
      × (contents after (length payload) ≡ payload)
ether_rx-header2data ptr e hdr payload protos h s d t =
    rw (ether_rx_lem ptr e hdr payload protos h s d t)
      (refl, contents-fill e hdr payload (length payload) h (omega arith) ∙ take_all payload)

-- A frame for this device, and then another frame, for this device or not, whose payload is at least as
-- long; both fit the receive buffer. The slice that the first frame's protocol is given reads as the
-- payload of the first frame until the second is read, and as the first bytes of the second frame's
-- payload from then on.
pub ether_rx_overwrites :
    (ptr : ℕ) (e : Ether) (first second : EtherHeader) (sent next : List ℕ) (ps qs : List Proto)
    → ether_header_size + length next ≤ length e.buf
    → length sent ≤ length next
    → IsEtherAddr first.src
    → IsEtherAddr first.dst
    → IsU16 first.typ
    → is_mine e first ≡ true
    → let (e1, passed) = ether_rx ptr e (some (header2data first sent)) ps in
      let (e2, _) = ether_rx ptr e1 (some (header2data second next)) qs in
      (slice : Slice) × (passed ≡ device_input first.typ (record { slice = slice; dev = ptr }) ps)
      × (slice_bytes e1 slice ≡ sent)
      × (slice_bytes e2 slice ≡ take (length sent) next)
unfolding ether_rx fill slice_bytes
ether_rx_overwrites ptr e first second sent next ps qs h k s d t mine =
    let room : ether_header_size + length sent ≤ length e.buf = omega (arith, h, k) in
    let (passed, now) = ether_rx-header2data ptr e first sent ps room s d t in
    (
      received ptr (length sent),
      passed ∙ rw mine refl,
      now,
      contents-fill (fill e (header2data first sent)) second next (length sent)
          (omega (arith, h, length-copy_at e.buf 0 (header2data first sent))) k,
    )
