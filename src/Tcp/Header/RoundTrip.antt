-- ===== src/Tcp/Header/RoundTrip.antt =====
-- The codec of pkg/tcp/header.go reads what it writes.
use go_network.Base.{
  ℕ, ◌+◌, ◌-◌, ◌≡◌, ◌<◌, refl, ap, ◌∙◌, arith, List, ◌∷◌, ◌++◌, length, drop, u8, u16, IsU8, IsU16,
  IsU32, All, put_uint16, put_uint32, ltb, false,
}
use go_network.Errors.{ok}
use go_network.Utils.{hton16, check_sum}
use go_network.Utils.Checksum.{word_sum, word_sum-le, check_sum_verifies, check_sum_chain}
use go_network.Wire.{copy_at}
use go_network.Tcp.Header.{
  Header, pseudo_header, read_header, write_header, segment_checksum, header2data, data2header,
}

-- A header without a checksum, for a payload of bytes, with every word in range.
pub record IsHeader (h : Header) (payload : List ℕ) : Type 0 where
  pub src : IsU16 h.src
  pub dst : IsU16 h.dst
  pub seq : IsU32 h.seq
  pub ack : IsU32 h.ack
  pub offset : IsU8 h.offset
  pub flag : IsU8 h.flag
  pub window : IsU16 h.window
  pub checksum : h.checksum ≡ 0
  pub urgent : IsU16 h.urgent
  pub small : 20 + length payload < 65536
  pub bytes : All IsU8 payload

-- The bytes before the checksum.
abbrev front : Header → List ℕ
front h =
    put_uint16 h.src
    ++ put_uint16 h.dst
    ++ put_uint32 h.seq
    ++ put_uint32 h.ack
    ++ (u8 h.offset ∷ u8 h.flag ∷ put_uint16 h.window)

module _ (h : Header) (payload : List ℕ) (src dst : ℕ) (v : IsHeader h payload) where
  abbrev behind : List ℕ
  behind = put_uint16 h.urgent ++ payload

  abbrev pseudo : List ℕ
  pseudo = put_uint32 src ++ (put_uint32 dst ++ (0 ∷ 6 ∷ put_uint16 (u16 (20 + length payload))))

  sum_of : ℕ
  sum_of = check_sum ((pseudo ++ front h) ++ 0 ∷ 0 ∷ behind) 0

  sent : List ℕ
  sent = front h ++ hton16 sum_of ++ behind

  written : header2data h payload src dst ≡ (sent, record h { checksum = sum_of })
  unfolding header2data write_header pseudo_header copy_at sent sum_of hton16
  written = rw v.checksum refl

  sum_range : IsU16 sum_of
  unfolding sum_of
  sum_range = unfold check_sum in omega arith

  read_back : read_header sent ≡ record h { checksum = sum_of }
  unfolding read_header hton16 sent
  read_back =
      let a = v.src in
      let b = v.dst in
      let c = v.seq in
      let d = v.ack in
      let e = v.offset in
      let f = v.flag in
      let g = v.window in let i = v.urgent in ground (arith, sum_range, a, b, c, d, e, f, g, i)

  length-sent : length sent ≡ 20 + length payload
  unfolding sent hton16
  length-sent = omega arith

  small_sum :
      (x y : ℕ)
      → IsU8 x
      → IsU8 y
      → IsU32 (0 + word_sum ((pseudo ++ front h) ++ x ∷ y ∷ behind) + 65535)
  unfolding word_sum
  small_sum x y a b =
      let c = word_sum-le payload v.bytes in let s = v.small in omega (arith, a, b, c, s)

  small_chain : IsU32 (word_sum pseudo + word_sum sent + 65535)
  unfolding word_sum sent hton16
  small_chain = let c = word_sum-le payload v.bytes in let s = v.small in omega (arith, c, s)

  verified : check_sum sent (65535 - check_sum pseudo 0) ≡ 0
  unfolding sent sum_of
  verified =
      check_sum_chain pseudo sent refl small_chain
      ∙ check_sum_verifies (pseudo ++ front h) behind 0 refl
          (small_sum 0 0 (omega arith) (omega arith))

  summed : segment_checksum sent src dst ≡ 0
  unfolding segment_checksum pseudo_header
  summed =
      ap (λ n. check_sum sent (65535 - check_sum (pseudo_header src dst (u16 n)) 0)) length-sent
      ∙ verified

  -- What header2data writes is read back as the header, with its checksum, and the payload, by a host
  -- that sees the same addresses.
  pub data2header-header2data :
      data2header (header2data h payload src dst).0 src dst
      ≡ ok ((header2data h payload src dst).1, payload)
  unfolding data2header
  data2header-header2data =
      let long : ltb (length sent) 20 ≡ false = let e = length-sent in ground (arith, e) in
      let rest : drop 20 sent ≡ payload = unfold sent hton16 in refl in
      rw (written, long, summed, read_back, rest) refl

  pub length-header2data : length (header2data h payload src dst).0 ≡ 20 + length payload
  length-header2data = rw written length-sent

-- header2data changes the checksum of the header only.
pub header2data_stored :
    (h : Header) (payload : List ℕ) (src dst : ℕ)
    → (header2data h payload src dst).1
      ≡ record h { checksum = (header2data h payload src dst).1.checksum }
unfolding header2data
header2data_stored h payload src dst = refl
