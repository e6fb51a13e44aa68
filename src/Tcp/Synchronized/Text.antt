-- ===== src/Tcp/Synchronized/Text.antt =====
-- The text of segments in pkg/tcp: it joins the receive buffer, and reaches a waiting RECEIVE.
use go_network.Base.{
  ℕ, ◌+◌, ◌-◌, ◌≡◌, ◌≤◌, ◌<◌, ◌∙◌, refl, ap, arith, List, [], ◌∷◌, ◌++◌, length, get_or, none, some,
  u16, u32,
}
use go_network.Tcp.Pcb.{Pcb, Machine, Env, deliver, notify, buffer_size, no_rcv_cmd, Chan}
use go_network.Tcp.Queue.{prefix, signal_cmd, signal_receive, deliver_data}
use go_network.Tcp.Queue.Delivery.{contents, prefix-ext, prefix-add, prefix-get_or, deliver_all}
use go_network.Tcp.Segment.{Segment, copy_in}
use go_network.Tcp.Synchronized.{store_text, take_text}

copy_in-below : (n : ℕ) (bytes : List ℕ) (a : ℕ → ℕ) (i : ℕ) → i < n → copy_in n bytes a i ≡ a i
unfolding copy_in
copy_in-below n bytes a i h = ground arith

copy_in-above :
    (n : ℕ) (bytes : List ℕ) (a : ℕ → ℕ) (i : ℕ)
    → i < length bytes
    → n + length bytes ≤ buffer_size
    → copy_in n bytes a (n + i) ≡ get_or bytes i 0
unfolding copy_in
copy_in-above n bytes a i h k = let e : n + i - n ≡ i = omega arith in rw e (ground arith)

pub prefix-copy_in :
    (n : ℕ) (bytes : List ℕ) (a : ℕ → ℕ)
    → n + length bytes ≤ buffer_size
    → prefix (n + length bytes) (copy_in n bytes a) ≡ prefix n a ++ bytes
prefix-copy_in n bytes a h =
    prefix-add n (length bytes) (copy_in n bytes a)
    ∙ ap (λ (l : List ℕ). l ++ prefix (length bytes) (λ i. copy_in n bytes a (n + i)))
        (prefix-ext n (copy_in n bytes a) a (λ i k. copy_in-below n bytes a i k))
    ∙ ap (◌++◌ (prefix n a)) (
        prefix-ext (length bytes) (λ i. copy_in n bytes a (n + i)) (λ i. get_or bytes i 0)
          (λ i k. copy_in-above n bytes a i k h)
        ∙ prefix-get_or bytes)

-- Text that fits is appended to what waits, and moves RCV.NXT to the end of the segment.
pub contents-store_text :
    (seg : Segment) (bytes : List ℕ) (p : Pcb)
    → p.rx_len + length bytes ≤ buffer_size
    → (contents (store_text seg bytes (length bytes) p) ≡ contents p ++ bytes)
      × ((store_text seg bytes (length bytes) p).rcv.nxt ≡ u32 (seg.seq + seg.len))
unfolding contents store_text
contents-store_text seg bytes p h =
    let e : u16 (p.rx_len + u16 (length bytes)) ≡ p.rx_len + length bytes = omega arith in
    (rw e (prefix-copy_in p.rx_len bytes p.rx_queue h), refl)

module _ {W : Type 0} ⦃env : Env W⦄ where
  receive_delivers :
      (m : Machine W) (ch : Chan)
      → m.pcb.rcv_cmd.err_ch ≡ some ch
      → 0 < m.pcb.rx_len
      → signal_receive m ≡ deliver_data m
  unfolding signal_receive
  receive_delivers m ch asked h = rw asked (ground arith)

  -- With a RECEIVE pending whose buffer is large enough, the text of a segment is handed over at once,
  -- behind what waited before it, and the buffer is empty again.
  pub take_text_delivers :
      (seg : Segment) (bytes : List ℕ) (m : Machine W) (ch : Chan)
      → m.pcb.rcv_cmd.err_ch ≡ some ch
      → 0 < length bytes
      → m.pcb.rx_len + length bytes ≤ buffer_size
      → m.pcb.rx_len + length bytes ≤ m.pcb.rcv_cmd.room
      → let r = take_text seg bytes (length bytes) m in
        (r.io.trace ≡ notify ch none ∷ deliver (contents m.pcb ++ bytes) ∷ m.io.trace)
        × (contents r.pcb ≡ [])
        × (r.pcb.rcv.wnd ≡ buffer_size)
        × (r.pcb.rcv_cmd ≡ no_rcv_cmd)
  unfolding take_text signal_cmd
  take_text_delivers seg bytes m ch asked some_text fits room =
      let n : Machine W = record m { pcb = store_text seg bytes (length bytes) m.pcb } in
      let e : n.pcb.rx_len ≡ m.pcb.rx_len + length bytes = unfold store_text in omega arith in
      let still : n.pcb.rcv_cmd.err_ch ≡ some ch = unfold store_text in asked in
      let d = deliver_all n ch still (unfold store_text in omega arith) in
      let c = (contents-store_text seg bytes m.pcb fits).0 in
      rw (receive_delivers n ch still (omega (arith, e)))
        (d.3 ∙ ap (λ (l : List ℕ). notify ch none ∷ deliver l ∷ m.io.trace) c, d.0, d.1, d.2)
