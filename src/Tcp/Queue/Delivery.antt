-- ===== src/Tcp/Queue/Delivery.antt =====
-- The receive buffer of pkg/tcp: what `prefix`, a store behind it and a delivery do to the bytes that
-- wait for RECEIVE.
use go_network.Base.{
  ℕ, zero, suc, ◌+◌, ◌-◌, ◌*◌, ◌≡◌, ◌≤◌, ◌<◌, ◌∙◌, refl, ap, arith, List, [], ◌∷◌, ◌++◌, length,
  get_or, none, some, IsU16, u16,
}
use go_network.Tcp.Pcb.{Pcb, Machine, deliver, notify, buffer_size, no_rcv_cmd, Chan}
use go_network.Tcp.Queue.{prefix, move_down, deliver_data}

-- The bytes that wait to be received.
unfoldable pub contents : Pcb → List ℕ
contents p = prefix p.rx_len p.rx_queue

pub prefix-ext : (n : ℕ) (f g : ℕ → ℕ) → ((i : ℕ) → i < n → f i ≡ g i) → prefix n f ≡ prefix n g
unfolding prefix
prefix-ext zero f g h = refl
prefix-ext (suc n) f g h = rw (
  h 0 (omega arith),
  prefix-ext n (λ i. f (suc i)) (λ i. g (suc i)) (λ i k. h (suc i) (omega arith)),
)

pub prefix-add : (n k : ℕ) (f : ℕ → ℕ) → prefix (n + k) f ≡ prefix n f ++ prefix k (λ i. f (n + i))
unfolding prefix
prefix-add zero k f =
    let e : 0 + k ≡ k = omega arith in
    rw e (prefix-ext k f (λ i. f (0 + i)) (λ i h. let z : i ≡ 0 + i = omega arith in ap f z))
prefix-add (suc n) k f =
    let e : suc n + k ≡ suc (n + k) = omega arith in
    rw (e, prefix)
      (ap (◌∷◌ (f 0)) (
        prefix-add n k (λ i. f (suc i))
        ∙ ap (◌++◌ (prefix n (λ i. f (suc i)))) (
            prefix-ext k (λ i. f (suc (n + i))) (λ i. f (suc n + i))
              (λ i h. let z : suc (n + i) ≡ suc n + i = omega arith in ap f z))))

pub length-prefix : (n : ℕ) (f : ℕ → ℕ) → length (prefix n f) ≡ n
unfolding prefix
length-prefix zero f = refl
length-prefix (suc n) f = ap suc (length-prefix n (λ i. f (suc i)))

pub prefix-get_or : (bytes : List ℕ) → prefix (length bytes) (λ i. get_or bytes i 0) ≡ bytes
unfolding prefix
prefix-get_or [] = refl
prefix-get_or (x ∷ bytes) = ap (◌∷◌ x) (prefix-get_or bytes)

module _ {W : Type 0} (m : Machine W) (ch : Chan) (asked : m.pcb.rcv_cmd.err_ch ≡ some ch) where
  emptied : Pcb
  emptied = record m.pcb {
    rx_len = 0;
    rcv = record m.pcb.rcv { wnd = buffer_size };
    rcv_cmd = no_rcv_cmd;
  }

  deliver_all-pcb : m.pcb.rx_len ≤ m.pcb.rcv_cmd.room → (deliver_data m).pcb ≡ emptied
  unfolding deliver_data emptied
  deliver_all-pcb h = ground arith

  deliver_all-trace :
      m.pcb.rx_len ≤ m.pcb.rcv_cmd.room
      → (deliver_data m).io.trace ≡ notify ch none ∷ deliver (contents m.pcb) ∷ m.io.trace
  unfolding deliver_data contents
  deliver_all-trace h = ground arith

  -- A RECEIVE with room for all that waits gets exactly that; the buffer is empty, the window is open,
  -- and the caller is told after the bytes are there.
  pub deliver_all :
      m.pcb.rx_len ≤ m.pcb.rcv_cmd.room
      → (contents (deliver_data m).pcb ≡ [])
        × ((deliver_data m).pcb.rcv.wnd ≡ buffer_size)
        × ((deliver_data m).pcb.rcv_cmd ≡ no_rcv_cmd)
        × ((deliver_data m).io.trace ≡ notify ch none ∷ deliver (contents m.pcb) ∷ m.io.trace)
  unfolding contents prefix emptied
  deliver_all h = rw (deliver_all-pcb h) (refl, refl, refl, deliver_all-trace h)

  moved : Pcb
  moved = record m.pcb {
    rx_queue = move_down (m.pcb.rx_len - m.pcb.rcv_cmd.room) m.pcb.rx_queue;
    rx_len = m.pcb.rx_len - m.pcb.rcv_cmd.room;
    rcv = record m.pcb.rcv { wnd = u16 (m.pcb.rcv.wnd + m.pcb.rcv_cmd.room) };
    rcv_cmd = no_rcv_cmd;
  }

  deliver_some-pcb :
      m.pcb.rcv_cmd.room < m.pcb.rx_len → IsU16 m.pcb.rx_len → (deliver_data m).pcb ≡ moved
  unfolding deliver_data moved
  deliver_some-pcb h k =
      let e : u16 m.pcb.rcv_cmd.room ≡ m.pcb.rcv_cmd.room = omega arith in ground (arith, e)

  deliver_some-trace :
      m.pcb.rcv_cmd.room < m.pcb.rx_len
      → (deliver_data m).io.trace
        ≡ notify ch none ∷ deliver (prefix m.pcb.rcv_cmd.room m.pcb.rx_queue) ∷ m.io.trace
  unfolding deliver_data
  deliver_some-trace h = ground arith

  -- A RECEIVE with less room than waits gets the first bytes, and success. What waits afterwards, if twice
  -- as much as is left, `rx_len - room`, is at most the buffer of 65535 bytes, are not the bytes behind
  -- them but as many bytes from the index `rx_len - room` on, where the index `room` is meant.
  pub deliver_some :
      m.pcb.rcv_cmd.room < m.pcb.rx_len
      → 2 * (m.pcb.rx_len - m.pcb.rcv_cmd.room) ≤ buffer_size
      → IsU16 m.pcb.rx_len
      → ((deliver_data m).io.trace
          ≡ notify ch none ∷ deliver (prefix m.pcb.rcv_cmd.room m.pcb.rx_queue) ∷ m.io.trace)
        × (contents (deliver_data m).pcb
            ≡ prefix
                (m.pcb.rx_len - m.pcb.rcv_cmd.room)
                (λ i. m.pcb.rx_queue (i + (m.pcb.rx_len - m.pcb.rcv_cmd.room))))
  unfolding contents moved move_down
  deliver_some h l k = (
    deliver_some-trace h,
    rw (deliver_some-pcb h k)
        (prefix-ext (m.pcb.rx_len - m.pcb.rcv_cmd.room) _ _ (λ i q. ground arith)),
  )
