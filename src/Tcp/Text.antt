-- ===== src/Tcp/Text.antt =====
-- The names and texts of pkg/tcp for the log: `String` of `ControlFlag` and of `Header` in
-- pkg/tcp/header.go, and of `PCBState` in pkg/tcp/pcb.go.
pub mod Names
use go_network.Base.{ℕ, ◌/◌, List, [], ◌∷◌, if◌then◌else◌}
use go_network.Strings.{codes}
use go_network.Strings.Printf.{num, text, sprintf}
use go_network.Tcp.ControlFlag.{cwr, ece, urg, ack, psh, rst, syn, fin, is_set}
use go_network.Tcp.Header.{Header}
use go_network.Tcp.Pcb.{PcbState}

unfoldable pub up : ℕ → ℕ → List ℕ → List ℕ
unfolding is_set
up a b str = if is_set a b then str else []

unfoldable pub flag_string : ℕ → List ℕ
unfolding up sprintf
flag_string f = sprintf (codes "%s%s%s%s%s%s%s%s") (
    text (up f cwr (codes "CWR "))
    ∷ text (up f ece (codes "ECE "))
    ∷ text (up f urg (codes "URG "))
    ∷ text (up f ack (codes "ACK "))
    ∷ text (up f psh (codes "PSH "))
    ∷ text (up f rst (codes "RST "))
    ∷ text (up f syn (codes "SYN "))
    ∷ text (up f fin (codes "FIN "))
    ∷ [])

unfoldable pub pcb_state_string : PcbState → List ℕ
pcb_state_string PcbState.listen = codes "LISTEN"
pcb_state_string PcbState.syn_sent = codes "SYN-SENT"
pcb_state_string PcbState.syn_received = codes "SYN-RECEIVED"
pcb_state_string PcbState.established = codes "ESTABLISHED"
pcb_state_string PcbState.fin_wait1 = codes "FIN-WAIT-1"
pcb_state_string PcbState.fin_wait2 = codes "FIN-WAIT-2"
pcb_state_string PcbState.close_wait = codes "CLOSE-WAIT"
pcb_state_string PcbState.closing = codes "CLOSING"
pcb_state_string PcbState.last_ack = codes "LAST-ACK"
pcb_state_string PcbState.time_wait = codes "TIME-WAIT"
pcb_state_string PcbState.closed = codes "CLOSED"

abbrev pub header_format : List ℕ
header_format =
    codes
      "\n\t\tDst: %d, \n\t\tSrc: %d,\n\t\tSeq: %d, \n\t\tAck: %d,\n\t\tOffset: %d,\n\t\tControl Flag: %s,\n\t\tWindow Size: %d,\n\t\tChecksum: %x,\n\t\tUrgent Pointer: %x,\n\t"

unfoldable pub header_string : Header → List ℕ
unfolding sprintf flag_string
header_string h = sprintf header_format (
    num h.dst
    ∷ num h.src
    ∷ num h.seq
    ∷ num h.ack
    ∷ num (h.offset / 16)
    ∷ text (flag_string h.flag)
    ∷ num h.window
    ∷ num h.checksum
    ∷ num h.urgent
    ∷ [])
