-- ===== src/Tcp/Peers/Conversation.antt =====
-- A conversation over an established connection of pkg/tcp: messages in both directions,
-- one after the other.
use go_network.Base.{
  ℕ, ◌+◌, List, [], ◌∷◌, ◌++◌, ◌≡◌, ◌≤◌, ◌<◌, sym, ap, ◌∙◌, arith, All, length, length-append,
}
use mathlib.Core.Path.{subst}
use mathlib.Core.List.{append-nil, append_assoc}
use go_network.Udp.Endpoint.{Endpoint}
use go_network.Tcp.Pcb.{Machine, Env, Chan, buffer_size, no_rcv_cmd}
use go_network.Tcp.Peers.{Sends}
use go_network.Tcp.Peers.Idle.{received}
use go_network.Tcp.Peers.Stream.{IsQuiet, Fit, message, message-IsIdle, message_delivers}

-- Nothing is on its way, nothing waits on either side, and the receive windows of both are open.
pub record IsAtRest {W : Type 0} (here there : Endpoint) (x y : ℕ) (c s : Machine W) : Type 0 where
  pub client_window : ℕ
  pub quiet : IsQuiet here there x y client_window c s
  pub positive : 0 < client_window
  pub bound : client_window ≤ buffer_size
  pub empty : c.pcb.rx_len ≡ 0
  pub free : c.pcb.rcv_cmd ≡ no_rcv_cmd

-- A message from the first side, or from the second.
pub data Turn : Type 0 where
  first second : List ℕ → Turn

abbrev pub bytes_of : Turn → List ℕ
bytes_of (Turn.first bytes) = bytes
bytes_of (Turn.second bytes) = bytes

-- What each side says.
abbrev pub said : List Turn → List ℕ
said [] = []
said (Turn.first bytes ∷ turns) = bytes ++ said turns
said (Turn.second bytes ∷ turns) = said turns

abbrev pub replied : List Turn → List ℕ
replied [] = []
replied (Turn.first bytes ∷ turns) = replied turns
replied (Turn.second bytes ∷ turns) = bytes ++ replied turns

other_way :
    {W : Type 0} (here there : Endpoint) (x y : ℕ) (c s : Machine W)
    → IsAtRest here there x y c s
    → IsAtRest there here y x s c
other_way here there x y c s r =
    let q = r.quiet in
    record {
      client_window = q.server_window;
      quiet = record {
        server_window = r.client_window;
        client = q.server;
        server = q.client;
        positive = r.positive;
        bound = r.bound;
        empty = r.empty;
        free = r.free;
      };
      positive = q.positive;
      bound = q.bound;
      empty = q.empty;
      free = q.free;
    }

module _ {W : Type 0} ⦃env : Env W⦄ where
  -- Each message is a RECEIVE at the other side, a Send, the segment, and its acknowledgement.
  unfoldable pub converse :
      Chan → Chan → ℕ → List Turn → Machine W × Machine W → Machine W × Machine W
  unfolding message
  converse ch receiver_ch room [] q = q
  converse ch receiver_ch room (Turn.first bytes ∷ turns) (c, s) =
      converse ch receiver_ch room turns (message ch receiver_ch room bytes (c, s))
  converse ch receiver_ch room (Turn.second bytes ∷ turns) (c, s) =
      let r = message ch receiver_ch room bytes (s, c) in
      converse ch receiver_ch room turns (r.1, r.0)

  module _ (sends : Sends env) (ch receiver_ch : Chan) (room : ℕ) where
    turn_delivers :
        (here there : Endpoint) (bytes : List ℕ) (x y : ℕ) (c s : Machine W)
        → Fit room bytes
        → IsAtRest here there x y c s
        → x + length bytes + 65535 < 4294967296
        → y + 65535 < 4294967296
        → let r = message ch receiver_ch room bytes (c, s) in
          IsAtRest here there (x + length bytes) y r.0 r.1
          × (received r.1.io.trace ≡ received s.io.trace ++ bytes)
          × (received r.0.io.trace ≡ received c.io.trace)
    turn_delivers here there bytes x y c s (some_text, small, fits) r hx hy =
        let wide : y + r.client_window < 4294967296 = let b = r.bound in omega (arith, b, hy) in
        let (quiet, got) =
          message_delivers sends ch receiver_ch room here there y r.client_window wide bytes x c s
            r.quiet some_text small fits hx in
        let idle =
          message-IsIdle sends ch receiver_ch room here there y r.client_window wide bytes x c s
            r.quiet some_text small fits hx in
        (
          record {
            client_window = r.client_window;
            quiet = quiet;
            positive = r.positive;
            bound = r.bound;
            empty = idle.rx_len ∙ r.empty;
            free = idle.rcv_cmd ∙ r.free;
          },
          got,
          idle.received,
        )

    -- Where ip.TxHandler takes every segment, the two sides of an established connection at rest (nothing
    -- unacknowledged, no text and no RECEIVE waiting, both receive windows open) send messages one after the
    -- other, the sides taking turns in any order, each message a RECEIVE at the other side, a Send, and the
    -- acknowledgement of it before the next message. If no message is empty or longer than a segment or than
    -- the buffer of its RECEIVE, and no sequence number wraps, then the RECEIVEs of either side are given the
    -- bytes of all messages of the other, in order, once and no others; and the connection is at rest again,
    -- with the numbers moved on by their counts.
    pub conversation_delivers :
        (here there : Endpoint) (turns : List Turn) (x y : ℕ) (c s : Machine W)
        → All (λ t. Fit room (bytes_of t)) turns
        → IsAtRest here there x y c s
        → x + length (said turns) + 65535 < 4294967296
        → y + length (replied turns) + 65535 < 4294967296
        → let r = converse ch receiver_ch room turns (c, s) in
          IsAtRest here there (x + length (said turns)) (y + length (replied turns)) r.0 r.1
          × (received r.1.io.trace ≡ received s.io.trace ++ said turns)
          × (received r.0.io.trace ≡ received c.io.trace ++ replied turns)
    unfolding converse
    conversation_delivers here there [] x y c s f r hx hy =
        let zx : x ≡ x + 0 = omega arith in
        let zy : y ≡ y + 0 = omega arith in
        (
          subst (λ k. IsAtRest here there k (y + 0) c s) zx
              (subst (λ k. IsAtRest here there x k c s) zy r),
          sym (append-nil (received s.io.trace)),
          sym (append-nil (received c.io.trace)),
        )
    conversation_delivers here there (Turn.first bytes ∷ turns) x y c s (f, fs) r hx hy =
        let n = message ch receiver_ch room bytes (c, s) in
        let sum : length (bytes ++ said turns) ≡ length bytes + length (said turns) =
          length-append bytes (said turns) in
        let (rest, got, kept) =
          turn_delivers here there bytes x y c s f r (omega (arith, sum, hx)) (omega (arith, hy)) in
        let (last, heard, answered) =
          conversation_delivers here there turns (x + length bytes) y n.0 n.1 fs rest
            (omega (arith, sum, hx)) hy in
        (
          subst
              (λ k.
                let m = converse ch receiver_ch room turns n in
                IsAtRest here there k (y + length (replied turns)) m.0 m.1)
              (omega (arith, sum)) last,
          heard
              ∙ ap (λ l. l ++ said turns) got
              ∙ append_assoc (received s.io.trace) bytes (said turns),
          answered ∙ ap (λ l. l ++ replied turns) kept,
        )
    conversation_delivers here there (Turn.second bytes ∷ turns) x y c s (f, fs) r hx hy =
        let n = message ch receiver_ch room bytes (s, c) in
        let sum : length (bytes ++ replied turns) ≡ length bytes + length (replied turns) =
          length-append bytes (replied turns) in
        let (rest, got, kept) =
          turn_delivers there here bytes y x s c f (other_way here there x y c s r)
            (omega (arith, sum, hy)) (omega (arith, hx)) in
        let (last, heard, answered) =
          conversation_delivers here there turns x (y + length bytes) n.1 n.0 fs
            (other_way there here (y + length bytes) x n.0 n.1 rest) hx (omega (arith, sum, hy)) in
        (
          subst
              (λ k.
                let m = converse ch receiver_ch room turns (n.1, n.0) in
                IsAtRest here there (x + length (said turns)) k m.0 m.1)
              (omega (arith, sum)) last,
          heard ∙ ap (λ l. l ++ said turns) kept,
          answered
              ∙ ap (λ l. l ++ replied turns) got
              ∙ append_assoc (received c.io.trace) bytes (replied turns),
        )
