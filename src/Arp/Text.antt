-- ===== src/Arp/Text.antt =====
-- `String` of `ArpEther` in pkg/arp/header.go.
use go_network.Base.{ℕ, List, [], ◌∷◌, ◌==◌, if◌then◌else◌}
use go_network.Strings.{codes}
use go_network.Strings.Printf.{num, text, sprintf}
use go_network.Ip.Address.{addr_string}
use go_network.Device.Text.{ether_addr_string}
use go_network.Arp.Header.{ArpEther, arp_hrd_ether, arp_pro_ip, arp_op_reply, arp_op_request}

-- The three switches, for the variables `Hrd`, `Pro` and `Op`.
abbrev pub hrd_string : ℕ → List ℕ
unfolding sprintf
hrd_string hrd =
    if hrd == arp_hrd_ether
    then sprintf (codes "Ethernet(%d)") (num arp_hrd_ether ∷ [])
    else codes "UNKNOWN"

abbrev pub pro_string : ℕ → List ℕ
unfolding sprintf
pro_string pro =
    if pro == arp_pro_ip then sprintf (codes "IPv4(%d)") (num arp_pro_ip ∷ []) else codes "UNKNOWN"

abbrev pub op_string : ℕ → List ℕ
unfolding sprintf
op_string op =
    if op == arp_op_reply
    then sprintf (codes "Reply(%d)") (num arp_op_reply ∷ [])
    else if op == arp_op_request
    then sprintf (codes "Request(%d)") (num arp_op_request ∷ [])
    else codes "UNKNOWN"

abbrev pub arp_format : List ℕ
arp_format =
    codes
      "\n\t\tHrd: %s,\n\t\tPro: %s,\n\t\tHln: %d,\n\t\tPln: %d,\n\t\tOp: %s,\n\t\tSha: %s,\n\t\tSpa: %s,\n\t\tTha: %s,\n\t\tTpa: %s,\n\t"

unfoldable pub arp_ether_string : ArpEther → List ℕ
unfolding sprintf hrd_string pro_string op_string ether_addr_string addr_string
arp_ether_string ae = sprintf arp_format (
    text (hrd_string ae.hrd)
    ∷ text (pro_string ae.pro)
    ∷ num ae.hln
    ∷ num ae.pln
    ∷ text (op_string ae.op)
    ∷ text (ether_addr_string ae.sha)
    ∷ text (addr_string ae.spa)
    ∷ text (ether_addr_string ae.tha)
    ∷ text (addr_string ae.tpa)
    ∷ [])
