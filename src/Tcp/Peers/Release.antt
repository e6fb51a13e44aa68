-- ===== src/Tcp/Peers/Release.antt =====
-- The release of a connection of pkg/tcp: Close on one side, then on the other.
use mathlib.Core.Path.{subst}
use go_network.Base.{ℕ, ◌+◌, ◌≡◌, ◌<◌, sym, ◌∙◌, arith, []}
use go_network.Udp.Endpoint.{Endpoint}
use go_network.Tcp.ControlFlag
use go_network.Tcp.Pcb.{
  Machine, Env, established, fin_wait1, fin_wait2, close_wait, last_ack, time_wait, closed, Chan,
}
use go_network.Tcp.Calls.{close}
use go_network.Tcp.Peers.{Sends, arrive_from}
use go_network.Tcp.Peers.Established.{IsEstablished, HasSent}
use go_network.Tcp.Peers.Closing.{
  IsIn, FinSent, advance-FinSent, close_established, close_close_wait,
}
use go_network.Tcp.Peers.Close.{fin-close_wait, ack-fin_wait2, fin-time_wait, ack-closed}

module _ {W : Type 0} ⦃env : Env W⦄ where
  -- The side that closes first, and the other one, after each segment: the FIN, its acknowledgement, the
  -- other FIN, and the acknowledgement of that.
  abbrev pub first1 : Chan → Machine W → Machine W
  first1 ch c = close ch c

  abbrev pub other1 : Chan → Machine W → Machine W → Machine W
  other1 ch c s = arrive_from (first1 ch c) s

  abbrev pub first2 : Chan → Machine W → Machine W → Machine W
  first2 ch c s = arrive_from (other1 ch c s) (first1 ch c)

  abbrev pub other2 : Chan → Chan → Machine W → Machine W → Machine W
  other2 ch other_ch c s = close other_ch (other1 ch c s)

  abbrev pub first3 : Chan → Chan → Machine W → Machine W → Machine W
  first3 ch other_ch c s = arrive_from (other2 ch other_ch c s) (first2 ch c s)

  abbrev pub other3 : Chan → Chan → Machine W → Machine W → Machine W
  other3 ch other_ch c s = arrive_from (first3 ch other_ch c s) (other2 ch other_ch c s)

  module _ (sends : Sends env) (ch other_ch : Chan) (c s : Machine W) (here there : Endpoint)
      (x y c_window s_window : ℕ) (ec : IsEstablished here there x y c_window c.pcb)
      (es : IsEstablished there here y x s_window s.pcb) (c_empty : c.pcb.rx_len ≡ 0)
      (s_empty : s.pcb.rx_len ≡ 0) (c_open : 0 < c_window) (s_open : 0 < s_window)
      (x_small : x + 1 + s_window < 4294967296) (y_small : y + 1 + c_window < 4294967296) where
    first-FinSent : FinSent fin_wait1 here there x y c_window c (first1 ch c)
    first-FinSent =
        subst (FinSent fin_wait1 here there x y c_window c)
          (sym (close_established sends ch c ec.state))
          (advance-FinSent sends fin_wait1 ch c established here there x y c_window
            (record {
              in_state = ec.state;
              local = ec.local;
              foreign = ec.foreign;
              snd_una = ec.una;
              snd_nxt = ec.snd_nxt;
              rcv_nxt = ec.rcv_nxt;
              rcv_wnd = ec.rcv_wnd;
            })
            ec.queue (omega (arith, x_small)))

    waiting :
        IsIn close_wait there here y y (x + 1) s_window (other1 ch c s).pcb
        × ((other1 ch c s).pcb.retx_queue ≡ [])
        × HasSent there here y (x + 1) ControlFlag.ack (other1 ch c s)
    waiting =
        fin-close_wait here there x y s_window (first1 ch c) s es s_empty first-FinSent.sent s_open
          x_small

    half :
        IsIn fin_wait2 here there (x + 1) (x + 1) y c_window (first2 ch c s).pcb
        × ((first2 ch c s).pcb.retx_queue ≡ [])
        × ((first2 ch c s).pcb.rx_len ≡ c.pcb.rx_len)
    half =
        ack-fin_wait2 here there x y c_window (other1 ch c s) (first1 ch c) c first-FinSent
          waiting.2 (omega (arith, y_small))

    other-FinSent :
        FinSent last_ack there here y (x + 1) s_window (other1 ch c s) (other2 ch other_ch c s)
    other-FinSent =
        subst (FinSent last_ack there here y (x + 1) s_window (other1 ch c s))
          (sym (close_close_wait sends other_ch (other1 ch c s) waiting.0.in_state))
          (advance-FinSent sends last_ack other_ch (other1 ch c s) close_wait there here y (x + 1)
            s_window waiting.0 waiting.1 (omega (arith, y_small)))

    last :
        IsIn time_wait here there (x + 1) (x + 1) (y + 1) c_window (first3 ch other_ch c s).pcb
        × HasSent here there (x + 1) (y + 1) ControlFlag.ack (first3 ch other_ch c s)
    last =
        fin-time_wait here there (x + 1) y c_window (other2 ch other_ch c s) (first2 ch c s) half.0
          half.1 (half.2 ∙ c_empty) other-FinSent.sent c_open y_small

    -- Where ip.TxHandler takes every segment, Close on one side of an established connection brings the two
    -- sides to FIN-WAIT-2 and CLOSE-WAIT, and then Close on the other side to TIME-WAIT and CLOSED, with
    -- each FIN acknowledged. Nothing is unacknowledged on either side, nothing waits to be received, the
    -- receive windows of both sides are open, and no sequence number wraps.
    pub connection_closes :
        IsIn fin_wait2 here there (x + 1) (x + 1) y c_window (first2 ch c s).pcb
        × IsIn close_wait there here y y (x + 1) s_window (other1 ch c s).pcb
        × IsIn time_wait here there (x + 1) (x + 1) (y + 1) c_window (first3 ch other_ch c s).pcb
        × ((other3 ch other_ch c s).pcb.state ≡ closed)
    connection_closes = (
      half.0,
      waiting.0,
      last.0,
      ack-closed here there (x + 1) y s_window (first3 ch other_ch c s) (other2 ch other_ch c s)
          (other1 ch c s) other-FinSent last.1 (omega (arith, x_small)),
    )
