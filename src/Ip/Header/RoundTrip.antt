-- ===== src/Ip/Header/RoundTrip.antt =====
-- The codec of pkg/ip/header.go reads what it writes.
use go_network.Base.{
  false, false, ◌*◌, if◌then◌else◌, ltb, ℕ, ◌+◌, ◌%◌, ◌≡◌, ◌<◌, ◌≤◌, refl, ap, ◌∙◌, arith, List, [],
  ◌∷◌, ◌++◌, length, take, drop, u8, IsU8, IsU16, IsU32, put_uint16, put_uint32, read_uint32-put,
}
use go_network.Errors.{data_too_small, err, data_smaller_than_ihl, ok}
use go_network.Utils.{hton16, check_sum}
use go_network.Utils.Checksum.{word_sum, check_sum_verifies}
use go_network.Wire.{copy_at}
use go_network.Ip.Header.{
  header_len, header_len, Header, write_header, read_header, check_header, header2data, data2header,
}

-- A header of 20 bytes for IPv4, with no checksum yet, all of whose words are in range, for a payload.
pub record IsHeader (h : Header) (payload : List ℕ) : Type 0 where
  pub vhl : h.vhl ≡ 69
  pub tos : IsU8 h.tos
  pub tol : h.tol ≤ 20 + length payload
  pub id : IsU16 h.id
  pub flags : IsU16 h.flags
  pub ttl : IsU8 h.ttl
  pub proto_type : IsU8 h.proto_type
  pub checksum : h.checksum ≡ 0
  pub src : IsU32 h.src
  pub dst : IsU32 h.dst
  pub small : 20 + length payload < 65536

-- The bytes before and behind the checksum.
abbrev front : Header → List ℕ
front h =
    u8 h.vhl ∷ u8 h.tos ∷ []
    ++ put_uint16 h.tol
    ++ put_uint16 h.id
    ++ put_uint16 h.flags
    ++ (u8 h.ttl ∷ u8 h.proto_type ∷ [])

abbrev back : Header → List ℕ
back h = put_uint32 h.src ++ put_uint32 h.dst

data2header_def :
    (bytes : List ℕ)
    → data2header bytes ≡ (
        if ltb (length bytes) 20
        then err data_too_small
        else check_header
            (read_header bytes)
            (check_sum (take (header_len (read_header bytes)) bytes) 0)
            bytes)
unfolding data2header
data2header_def bytes = refl

check_header_accepts :
    (hdr : Header) (chksum n : ℕ) (bytes payload : List ℕ)
    → length bytes ≡ n
    → hdr.vhl ≡ 69
    → hdr.tol ≤ n
    → n < 65536
    → chksum ≡ 0
    → drop 20 bytes ≡ payload
    → check_header hdr chksum bytes
      ≡ (if ltb (n % 256) 20 then err data_smaller_than_ihl else ok (hdr, payload))
unfolding check_header
check_header_accepts hdr chksum n bytes payload l v t s z r =
    let e : header_len hdr ≡ 20 = ap (λ x. x % 16 * 4) v in rw (e, r, l) (ground arith)

data2header_accepts :
    (bytes : List ℕ) (hdr : Header) (n : ℕ) (payload : List ℕ)
    → read_header bytes ≡ hdr
    → length bytes ≡ n
    → hdr.vhl ≡ 69
    → hdr.tol ≤ n
    → (n < 65536) × (20 ≤ n)
    → check_sum (take 20 bytes) 0 ≡ 0
    → drop 20 bytes ≡ payload
    → data2header bytes
      ≡ (if ltb (n % 256) 20 then err data_smaller_than_ihl else ok (hdr, payload))
data2header_accepts bytes hdr n payload again l v t (s, k) z r =
    let long : ltb (length bytes) 20 ≡ false = ground (arith, l, k) in
    let e : header_len (read_header bytes) ≡ 20 = ap header_len again ∙ ap (λ x. x % 16 * 4) v in
    let c : check_sum (take (header_len (read_header bytes)) bytes) 0 ≡ 0 = rw e z in
    data2header_def bytes
    ∙ (rw long (rw (c, again) (check_header_accepts hdr 0 n bytes payload l v t s refl r)))

module _ (h : Header) (payload : List ℕ) (v : IsHeader h payload) where
  abbrev sum_of : ℕ
  sum_of = check_sum (front h ++ 0 ∷ 0 ∷ back h) 0

  summed : check_sum (take 20 (write_header h ++ payload)) 0 ≡ sum_of
  summed = ap (λ c. check_sum (front h ++ put_uint16 c ++ back h) 0) v.checksum

  written :
      header2data h payload
      ≡ (front h ++ hton16 sum_of ++ back h ++ payload, record h { checksum = sum_of })
  unfolding header2data copy_at hton16
  written = rw summed refl

  verified : check_sum (front h ++ hton16 sum_of ++ back h) 0 ≡ 0
  verified = check_sum_verifies (front h) (back h) 0 refl (unfold word_sum in omega arith)

  sum_range : IsU16 sum_of
  sum_range = unfold check_sum in omega arith

  read_back :
      read_header (front h ++ hton16 sum_of ++ back h ++ payload) ≡ record h { checksum = sum_of }
  unfolding read_header hton16
  read_back = ground (arith, sum_range, read_uint32-put h.src v.src, read_uint32-put h.dst v.dst)

  sent : List ℕ
  sent = front h ++ hton16 sum_of ++ back h ++ payload

  length-sent : length sent ≡ 20 + length payload
  unfolding sent hton16
  length-sent = omega arith

  -- What header2data writes is read back as the header, with its checksum, and the payload, unless the
  -- length of the packet modulo 256 is less than 20: then data2header takes the packet for too short.
  pub data2header-header2data : data2header (header2data h payload).0 ≡ (
      if ltb ((20 + length payload) % 256) 20
      then err data_smaller_than_ihl
      else ok ((header2data h payload).1, payload))
  data2header-header2data =
      let again : read_header sent ≡ record h { checksum = sum_of } = unfold sent in read_back in
      let bytes : (header2data h payload).0 ≡ sent =
        ap (λ p. p.0) written ∙ (unfold sent in refl) in
      let stored : (header2data h payload).1 ≡ record h { checksum = sum_of } =
        ap (λ p. p.1) written in
      let taken : take 20 sent ≡ front h ++ hton16 sum_of ++ back h = unfold sent hton16 in refl in
      let rest : drop 20 sent ≡ payload = unfold sent hton16 in refl in
      let good : check_sum (take 20 sent) 0 ≡ 0 = ap (λ l. check_sum l 0) taken ∙ verified in
      rw (bytes, stored)
        (data2header_accepts sent (record h { checksum = sum_of }) (20 + length payload) payload
          again length-sent v.vhl v.tol (v.small, omega arith) good rest)

pub length-header2data :
    (h : Header) (payload : List ℕ) → length (header2data h payload).0 ≡ 20 + length payload
unfolding header2data copy_at hton16
length-header2data h payload = omega arith
