-- ===== src/Udp/Header/RoundTrip.antt =====
-- The codec of pkg/udp/header.go reads what it writes.
use go_network.Base.{
  ℕ, ◌+◌, ◌-◌, ◌≡◌, ◌<◌, refl, sym, ap, ◌∙◌, arith, List, ◌∷◌, ◌++◌, length, drop, u16, IsU8, IsU16,
  IsU32, All, put_uint16, ltb, false, if◌then◌else◌,
}
use go_network.Errors.{ok, err, data_too_small}
use go_network.Utils.{hton16, check_sum}
use go_network.Utils.Checksum.{word_sum, word_sum-le, check_sum_verifies, check_sum_chain}
use go_network.Wire.{copy_at}
use go_network.Udp.Header.{
  Header, pseudo_header, read_header, check_header, header2data, data2header,
}

-- A header for a payload of bytes: the length is right, there is no checksum yet, words are in range.
pub record IsHeader (h : Header) (payload : List ℕ) : Type 0 where
  pub src : IsU16 h.src
  pub dst : IsU16 h.dst
  pub len : h.len ≡ 8 + length payload
  pub checksum : h.checksum ≡ 0
  pub small : 8 + length payload < 65536
  pub bytes : All IsU8 payload

-- The bytes before the checksum, behind the pseudo header.
abbrev front : Header → List ℕ
front h = put_uint16 h.src ++ put_uint16 h.dst ++ put_uint16 h.len

data2header_def :
    (bytes : List ℕ) (src dst : ℕ)
    → data2header bytes src dst ≡ (
        if ltb (length bytes) 8
        then err data_too_small
        else check_header
            (read_header bytes)
            (check_sum bytes (65535 - check_sum (pseudo_header src dst (read_header bytes).len) 0))
            bytes)
unfolding data2header
data2header_def bytes src dst = refl

check_header_accepts :
    (hdr : Header) (chksum : ℕ) (bytes payload : List ℕ)
    → hdr.len ≡ length bytes
    → chksum ≡ 0
    → drop 8 bytes ≡ payload
    → check_header hdr chksum bytes ≡ ok (hdr, payload)
unfolding check_header
check_header_accepts hdr chksum bytes payload l z r = rw r (ground (arith, l, z))

module _ (h : Header) (payload : List ℕ) (src dst : ℕ) (v : IsHeader h payload) where
  abbrev pseudo : List ℕ
  pseudo = pseudo_header src dst h.len

  sum_of : ℕ
  sum_of = check_sum ((pseudo ++ front h) ++ 0 ∷ 0 ∷ payload) 0

  sent : List ℕ
  sent = front h ++ hton16 sum_of ++ payload

  written : header2data h payload src dst ≡ (sent, record h { checksum = sum_of })
  unfolding header2data copy_at sent sum_of hton16
  written =
      let e : u16 (8 + length payload) ≡ h.len =
        let a = v.len in let b = v.small in omega (arith, a, b) in
      rw (e, v.checksum) refl

  sum_range : IsU16 sum_of
  unfolding sum_of
  sum_range = unfold check_sum in omega arith

  read_back : read_header sent ≡ record h { checksum = sum_of }
  unfolding read_header hton16 sent
  read_back = let a = v.len in let b = v.small in ground (arith, sum_range, a, b)

  length-sent : length sent ≡ 8 + length payload
  unfolding sent hton16
  length-sent = omega arith

  small_sum :
      (x y : ℕ)
      → IsU8 x
      → IsU8 y
      → IsU32 (0 + word_sum ((pseudo ++ front h) ++ x ∷ y ∷ payload) + 65535)
  unfolding word_sum
  small_sum x y a b =
      let c = word_sum-le payload v.bytes in let s = v.small in omega (arith, a, b, c, s)

  small_chain : IsU32 (word_sum pseudo + word_sum sent + 65535)
  unfolding word_sum sent hton16
  small_chain = let c = word_sum-le payload v.bytes in let s = v.small in omega (arith, c, s)

  verified : check_sum sent (65535 - check_sum pseudo 0) ≡ 0
  unfolding sent sum_of
  verified =
      check_sum_chain pseudo sent refl small_chain
      ∙ check_sum_verifies (pseudo ++ front h) payload 0 refl
          (small_sum 0 0 (omega arith) (omega arith))

  accepted :
      check_header
        (record h { checksum = sum_of })
        (check_sum sent (65535 - check_sum pseudo 0))
        sent
      ≡ ok (record h { checksum = sum_of }, payload)
  accepted =
      let rest : drop 8 sent ≡ payload = unfold sent hton16 in refl in
      check_header_accepts (record h { checksum = sum_of }) _ sent payload (v.len ∙ sym length-sent)
        verified rest

  pub length-header2data : length (header2data h payload src dst).0 ≡ 8 + length payload
  length-header2data = ap (λ r. length r.0) written ∙ length-sent

  -- What header2data writes is read back as the header, with its checksum, and the payload, by a host
  -- that sees the same addresses.
  pub data2header_sent :
      data2header (header2data h payload src dst).0 src dst
      ≡ ok ((header2data h payload src dst).1, payload)
  data2header_sent =
      let long : ltb (length sent) 8 ≡ false = let e = length-sent in ground (arith, e) in
      rw written (data2header_def sent src dst ∙ (rw long (rw read_back accepted)))

-- header2data changes the checksum of the header only.
pub header2data_stored :
    (h : Header) (payload : List ℕ) (src dst : ℕ)
    → (header2data h payload src dst).1
      ≡ record h { checksum = (header2data h payload src dst).1.checksum }
unfolding header2data
header2data_stored h payload src dst = refl
