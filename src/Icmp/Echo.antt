-- ===== src/Icmp/Echo.antt =====
-- The checksum of pkg/icmp, which is written over the header and checked over the message, and the
-- answer to an echo request.
use go_network.Base.{
  ℕ, ◌+◌, ◌-◌, ◌%◌, ◌≡◌, ◌<◌, ◌↔◌, ◌≢◌, refl, ap, ◌∙◌, arith, List, [], ◌∷◌, ◌++◌, length, take, u8,
  IsU8, IsU32, All, put_uint16, put_uint32,
}
use go_network.Utils.{hton16, check_sum}
use go_network.Utils.Checksum.{word_sum, word_sum-le, ones_sum, check_sum-ones_sum}
use go_network.Wire.{copy_at}
use go_network.Icmp.Message.{Header, write_header, header2data}

-- A header with no checksum yet, whose words are in range, for a payload of bytes that fits a packet.
pub record IsMessage (h : Header) (payload : List ℕ) : Type 0 where
  pub typ : IsU8 h.typ
  pub code : IsU8 h.code
  pub checksum : h.checksum ≡ 0
  pub values : IsU32 h.values
  pub small : 8 + length payload < 65536
  pub bytes : All IsU8 payload

-- Whether the code's sum over a message is that of a message without error.
sums_to_zero :
    (s c w : ℕ) → c ≡ 65535 - ones_sum s → (65535 - ones_sum (s + c + w) ≡ 0) ↔ (w % 65535 ≡ 0)
unfolding ones_sum
sums_to_zero s c w h = (λ e. ground arith, λ e. ground arith)

never_empty : (s c w : ℕ) → c ≡ 65535 - ones_sum s → (65535 - ones_sum (s + c + w)) ≢ 65535
unfolding ones_sum
never_empty s c w h = λ e. ground arith

module _ (h : Header) (payload : List ℕ) (v : IsMessage h payload) where
  abbrev bare : List ℕ
  bare = u8 h.typ ∷ u8 h.code ∷ 0 ∷ 0 ∷ put_uint32 h.values

  sum_of : ℕ
  sum_of = check_sum bare 0

  summed : check_sum (take 8 (write_header h ++ payload)) 0 ≡ sum_of
  unfolding sum_of
  summed =
      ap (λ c. check_sum ((u8 h.typ ∷ u8 h.code ∷ []) ++ put_uint16 c ++ put_uint32 h.values) 0)
        v.checksum

  sent : List ℕ
  sent = (u8 h.typ ∷ u8 h.code ∷ []) ++ hton16 sum_of ++ put_uint32 h.values ++ payload

  written : (header2data h payload).0 ≡ sent
  unfolding header2data copy_at hton16 sent
  written = rw summed refl

  sum_value : sum_of ≡ 65535 - ones_sum (word_sum bare)
  unfolding sum_of
  sum_value =
      check_sum-ones_sum bare 0 (unfold word_sum in omega arith)
      ∙ (let z : 0 + word_sum bare ≡ word_sum bare = omega arith in ap (λ n. 65535 - ones_sum n) z)

  sent_sum : word_sum sent ≡ word_sum bare + sum_of + word_sum payload
  unfolding word_sum sent hton16
  sent_sum = let e = sum_value in omega (arith, e)

  small_sum : IsU32 (word_sum sent)
  unfolding word_sum
  small_sum =
      let e = sum_value in
      let t = sent_sum in
      let l = word_sum-le payload v.bytes in let k = v.small in omega (arith, e, t, l, k)

  sent_checksum :
      check_sum (header2data h payload).0 0
      ≡ 65535 - ones_sum (word_sum bare + sum_of + word_sum payload)
  sent_checksum =
      let z : 0 + word_sum sent ≡ word_sum bare + sum_of + word_sum payload =
        let t = sent_sum in omega (arith, t) in
      ap (λ l. check_sum l 0) written
      ∙ check_sum-ones_sum sent 0 (let k = small_sum in omega (arith, k))
      ∙ ap (λ n. 65535 - ones_sum n) z

  -- A message that header2data writes passes the test of RxHandler, which asks for a checksum of 0 or
  -- 65535 over the whole message, exactly if the sum of the words of its payload is divisible by 65535:
  -- the checksum that was written covers the header only.
  pub check_sum-header2data :
      ((check_sum (header2data h payload).0 0 ≡ 0) ↔ (word_sum payload % 65535 ≡ 0))
      × (check_sum (header2data h payload).0 0 ≢ 65535)
  check_sum-header2data = (
    rw sent_checksum (sums_to_zero (word_sum bare) sum_of (word_sum payload) sum_value),
    rw sent_checksum (never_empty (word_sum bare) sum_of (word_sum payload) sum_value),
  )
