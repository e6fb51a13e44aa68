-- ===== src/Tcp/Arrives/Outside.antt =====
-- The segments outside the receive window of pkg/tcp, by the test of RFC 793, in the synchronized states.
use go_network.Base.{
  ℕ, ◌+◌, ◌≡◌, ◌<◌, ◌≤◌, inl, inr, arith, List, ◌∷◌, Bool, Bool-cases, true, false, if◌then◌else◌,
}
use go_network.Udp.Endpoint.{Endpoint}
use go_network.Tcp.ControlFlag
use go_network.Tcp.ControlFlag.{is_set}
use go_network.Tcp.Pcb.{Pcb, Machine, Env}
use go_network.Tcp.Segment.{Segment, acceptable, last_seq}
use go_network.Tcp.Segment.Window.{
  HasWords, InReceiveWindow, acceptable_text, acceptable_empty, acceptable_wrapped,
}
use go_network.Tcp.Synchronized.{is_unsynchronized}
use go_network.Tcp.Arrives.{segment_arrives}
use go_network.Tcp.Arrives.Outcomes.{segment_refused, reply_event}

-- A segment with text, neither the first nor the last number of which is in the window; a segment without
-- text before the window, or behind the number that follows it; or any segment, where the window passes
-- 2^32.
pub data IsOutside (p : Pcb) (seg : Segment) : Type 0 where
  text :
      p.rcv.nxt + p.rcv.wnd < 4294967296
      → 0 < seg.len
      → (InReceiveWindow p seg.seq → ⊥)
      → (InReceiveWindow p (last_seq seg) → ⊥)
      → IsOutside p seg
  before : p.rcv.nxt + p.rcv.wnd < 4294967296 → seg.len ≡ 0 → seg.seq < p.rcv.nxt → IsOutside p seg
  behind :
      p.rcv.nxt + p.rcv.wnd < 4294967296
      → seg.len ≡ 0
      → p.rcv.nxt + p.rcv.wnd < seg.seq
      → IsOutside p seg
  wrapped : 4294967296 ≤ p.rcv.nxt + p.rcv.wnd → IsOutside p seg

false_or : (b : Bool) → (b ≡ true → ⊥) → b ≡ false
false_or b h = elim (Bool-cases b) [ inl e ↦ absurd (h e) | inr e ↦ e ]

outside_refused :
    (p : Pcb) (seg : Segment) → HasWords p seg → IsOutside p seg → acceptable seg p ≡ false
outside_refused p seg w (text small some_text first last) =
    false_or (acceptable seg p) (λ e. elim ((acceptable_text p seg w small some_text).0 e) [
      | inl i ↦ first i
      | inr i ↦ last i
    ])
outside_refused p seg w (before small empty at) =
    false_or (acceptable seg p)
      (λ e. let k = (acceptable_empty p seg w small empty).0 e in omega (arith, k, at))
outside_refused p seg w (behind small empty at) =
    false_or (acceptable seg p)
      (λ e. let k = (acceptable_empty p seg w small empty).0 e in omega (arith, k, at))
outside_refused p seg w (wrapped wide) = acceptable_wrapped p seg w wide

module _ {W : Type 0} ⦃env : Env W⦄ where
  -- In a synchronized state a segment leaves the control block as it is, and is answered by exactly one
  -- acknowledgement of what was received, or by nothing if it is a reset, if it has text and neither its
  -- first nor its last number is in the receive window of RFC 793; if it has none and is before the window
  -- or behind the number that follows it; and, whatever it is, if the window passes 2^32.
  pub segment_outside :
      (seg : Segment) (flag : ℕ) (bytes : List ℕ) (len : ℕ) (foreign : Endpoint) (m : Machine W)
      → is_unsynchronized m.pcb.state ≡ false
      → HasWords m.pcb seg
      → IsOutside m.pcb seg
      → ((segment_arrives seg flag bytes len foreign m).0.pcb ≡ m.pcb)
        × ((segment_arrives seg flag bytes len foreign m).0.io.trace ≡ (
            if is_set flag ControlFlag.rst
            then m.io.trace
            else reply_event ControlFlag.ack m.pcb.snd.nxt m.pcb ∷ m.io.trace))
  segment_outside seg flag bytes len foreign m late w out =
      segment_refused seg flag bytes len foreign m late (outside_refused m.pcb seg w out)
