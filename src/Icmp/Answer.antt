-- ===== src/Icmp/Answer.antt =====
-- The answer of RxHandler in pkg/icmp/protocol.go to an echo request of another host.
use go_network.Base.{
  ℕ, ◌+◌, ◌%◌, ◌≡◌, ◌<◌, ◌↔◌, ◌≢◌, refl, ap, ◌∙◌, arith, false, List, [], ◌∷◌, ◌++◌, length, ltb,
  u8, IsU8, IsU32, All, put_uint16, put_uint32, read_uint32-put,
}
use go_network.Utils.{check_sum}
use go_network.Utils.Checksum.{word_sum}
use go_network.Ip.Iface.{Iface}
use go_network.Ip.Protocol
use go_network.Ip.Protocol.{Ip, IpEnv}
use go_network.Ip.ProtoType.{proto_icmp}
use go_network.Icmp.Enum.{type_echo_reply, type_echo}
use go_network.Icmp.Message.{Header, header2data, read_header, rx_message, rx_handler, tx_handler}
use go_network.Icmp.Echo.{check_sum-header2data}

-- An echo request with the checksum c.
abbrev pub request : ℕ → ℕ → ℕ → List ℕ → List ℕ
request code c values payload =
    (type_echo ∷ u8 code ∷ []) ++ put_uint16 c ++ put_uint32 values ++ payload

abbrev pub reply_header : ℕ → Header
reply_header values = record { typ = type_echo_reply; code = 0; checksum = 0; values = values }

read_values :
    (code c values : ℕ) (payload : List ℕ)
    → IsU32 values
    → (read_header (request code c values payload)).values ≡ values
unfolding read_header
read_values code c values payload v = read_uint32-put values v

module _ {W : Type 0} ⦃env : IpEnv W⦄ (code c values : ℕ) (payload : List ℕ) (src : ℕ)
    (iface : Iface) (m : Ip W) where
  echoed :
      IsU32 values
      → rx_message (read_header (request code c values payload)) payload src iface m
        ≡ tx_handler type_echo_reply 0 values payload iface.unicast src m
  unfolding rx_message read_header
  echoed v =
      ap (λ k. tx_handler type_echo_reply 0 k payload iface.unicast src m)
        (read_values code c values payload v)

  accepted :
      check_sum (request code c values payload) 0 ≡ 0
      → rx_handler (request code c values payload) src iface m
        ≡ rx_message (read_header (request code c values payload)) payload src iface m
  unfolding rx_handler
  accepted h =
      let l : ltb (length (request code c values payload)) 8 ≡ false = ground arith in
      rw (rx_handler, l, h) refl

  -- An echo request whose checksum over the whole message is right is answered, whatever its code and
  -- its destination were, with one message from the address of the interface to the sender, which has
  -- the identifier, the sequence number and the payload of the request. The sender, when it takes the
  -- checksum over the whole answer, finds it right exactly if the sum of the words of the payload is
  -- divisible by 65535. The payload is of bytes, and fits a packet.
  pub echo_answered :
      IsU32 values
      → 8 + length payload < 65536
      → All IsU8 payload
      → check_sum (request code c values payload) 0 ≡ 0
      → let reply = (header2data (reply_header values) payload).0 in
        (rx_handler (request code c values payload) src iface m
          ≡ Protocol.tx_handler proto_icmp reply iface.unicast src m)
        × ((check_sum reply 0 ≡ 0) ↔ (word_sum payload % 65535 ≡ 0))
        × (check_sum reply 0 ≢ 65535)
  unfolding tx_handler
  echo_answered v small bytes h =
      let sum = check_sum-header2data (reply_header values) payload (record {
        typ = omega arith;
        code = omega arith;
        checksum = refl;
        values = v;
        small = small;
        bytes = bytes;
      }) in
      (accepted h ∙ echoed v, sum.0, sum.1)
