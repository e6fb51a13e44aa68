-- ===== src/Tcp/Segment/Window.antt =====
-- The acceptance test of segmentArrives (pkg/tcp/protocol.go) against the test of RFC 793, where
-- sequence numbers are compared modulo 2^32.
use go_network.Base.{ℕ, ◌+◌, ◌-◌, ◌%◌, ◌≡◌, ◌≤◌, ◌<◌, ◌⊎◌, ◌↔◌, arith, true, false, IsU16, IsU32}
use go_network.Tcp.Pcb.{Pcb}
use go_network.Tcp.Segment.{Segment, in_window, acceptable, last_seq}

-- Sequence number x lies in the receive window: RCV.NXT =< x < RCV.NXT + RCV.WND modulo 2^32.
unfoldable pub InReceiveWindow : Pcb → ℕ → Type 0
InReceiveWindow p x = (x + 4294967296 - p.rcv.nxt) % 4294967296 < p.rcv.wnd

-- The words of the window and the segment.
pub record HasWords (p : Pcb) (seg : Segment) : Type 0 where
  pub nxt : IsU32 p.rcv.nxt
  pub wnd : IsU16 p.rcv.wnd
  pub seq : IsU32 seg.seq
  pub len : seg.len ≤ 65536

in_window_lem :
    (p : Pcb) (x : ℕ)
    → p.rcv.nxt + p.rcv.wnd < 4294967296
    → IsU32 x
    → (in_window p x ≡ true) ↔ InReceiveWindow p x
unfolding in_window InReceiveWindow
in_window_lem p x h k = (λ e. ground arith, λ e. ground arith)

-- Where the window does not pass 2^32, a segment with text is accepted exactly if RFC 793 accepts it:
-- its first or its last sequence number is in the window, and the window is not closed.
pub acceptable_text :
    (p : Pcb) (seg : Segment)
    → HasWords p seg
    → p.rcv.nxt + p.rcv.wnd < 4294967296
    → 0 < seg.len
    → (acceptable seg p ≡ true) ↔ ((InReceiveWindow p seg.seq) ⊎ (InReceiveWindow p (last_seq seg)))
unfolding acceptable in_window InReceiveWindow
acceptable_text p seg w h k = (λ e. ground arith, λ e. ground arith)

-- A segment without text is accepted exactly from RCV.NXT up to and with RCV.NXT + RCV.WND: one number
-- more than RFC 793 allows where the window is open.
pub acceptable_empty :
    (p : Pcb) (seg : Segment)
    → HasWords p seg
    → p.rcv.nxt + p.rcv.wnd < 4294967296
    → seg.len ≡ 0
    → (acceptable seg p ≡ true) ↔ ((p.rcv.nxt ≤ seg.seq) × (seg.seq ≤ p.rcv.nxt + p.rcv.wnd))
unfolding acceptable in_window
acceptable_empty p seg w h k = (λ e. ground arith, λ e. ground arith)

-- Where the open window passes 2^32, no segment at all is accepted.
pub acceptable_wrapped :
    (p : Pcb) (seg : Segment)
    → HasWords p seg
    → 4294967296 ≤ p.rcv.nxt + p.rcv.wnd
    → acceptable seg p ≡ false
unfolding acceptable in_window
acceptable_wrapped p seg w h = ground arith
