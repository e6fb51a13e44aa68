-- ===== src/Tcp/Pcb.antt =====
-- The protocol control block of pkg/tcp/pcb.go, and the state that the handlers of pkg/tcp share: the
-- round trip estimate of pkg/tcp/timer.go, the world below TCP, and a trace of what the code does to
-- the world: segments handed to ip.TxHandler and sends on error channels.
use go_network.Base.{ℕ, ◌+◌, ◌*◌, ◌/◌, List, [], ◌∷◌, Bool, Option, none, some, ltb, if◌then◌else◌}
use go_network.Errors.{Error}
use go_network.Tcp.Header.{Header}
use go_network.Udp.Endpoint.{Endpoint}

pub data PcbState : Type 0 where
  listen syn_sent syn_received established fin_wait1 fin_wait2 : PcbState
  close_wait closing last_ack time_wait closed : PcbState

pub data Trigger : Type 0 where
  trigger_no trigger_open trigger_close trigger_receive trigger_send : Trigger

abbrev pub same_trigger : Trigger → Trigger → Bool
same_trigger Trigger.trigger_no Trigger.trigger_no = Bool.true
same_trigger Trigger.trigger_open Trigger.trigger_open = Bool.true
same_trigger Trigger.trigger_close Trigger.trigger_close = Bool.true
same_trigger Trigger.trigger_receive Trigger.trigger_receive = Bool.true
same_trigger Trigger.trigger_send Trigger.trigger_send = Bool.true
same_trigger _ _ = Bool.false

-- A channel of errors, by its number; `none` is the nil channel.
abbrev pub Chan : Type 0
Chan = ℕ

pub record RetxEntry : Type 0 where
  pub bytes : List ℕ
  pub seq : ℕ
  pub flag : ℕ
  pub first : ℕ
  pub last : ℕ
  pub retx_count : ℕ
  pub err_ch : Option Chan
  pub trigger_type : Trigger

-- A pending RECEIVE: the length of the caller's buffer, and the channel.
pub record RcvCmd : Type 0 where
  pub room : ℕ
  pub err_ch : Option Chan

pub record Snd : Type 0 where
  pub una : ℕ
  pub nxt : ℕ
  pub wnd : ℕ
  pub up : ℕ
  pub wl1 : ℕ
  pub wl2 : ℕ

pub record Rcv : Type 0 where
  pub nxt : ℕ
  pub wnd : ℕ
  pub up : ℕ

-- `math.MaxUint16`.
abbrev pub buffer_size : ℕ
buffer_size = 65535

-- `rx_queue` is the array `[bufferSize]byte`, as a function of the index.
pub record Pcb : Type 0 where
  pub state : PcbState
  pub local : Endpoint
  pub foreign : Endpoint
  pub snd : Snd
  pub iss : ℕ
  pub rcv : Rcv
  pub irs : ℕ
  pub mss : ℕ
  pub rx_queue : ℕ → ℕ
  pub rx_len : ℕ
  pub retx_queue : List RetxEntry
  pub rcv_cmd : RcvCmd
  pub timeout : ℕ
  pub last_tx_time : ℕ

abbrev pub no_rcv_cmd : RcvCmd
no_rcv_cmd = record { room = 0; err_ch = none }

pub data Event : Type 0 where
  -- `errCh <- err`; `none` for nil.
  notify : Chan → Option Error → Event
  -- A send on the nil channel, which blocks for ever.
  blocked : Event
  -- The bytes copied to the buffer of a RECEIVE; their number is stored in `*n`.
  deliver : List ℕ → Event
  -- A segment handed to ip.TxHandler: the endpoints, the header and the payload.
  transmit : Endpoint → Endpoint → Header → List ℕ → Event

-- What is below: ip.TxHandler (for ProtoTCP), the clock in nanoseconds and math/rand, each of which may
-- change the world.
pub record Env (W : Type 0) : Type 0 where
  pub ip_tx_handler : List ℕ → ℕ → ℕ → W → W × Option Error
  pub time_now : W → W × ℕ
  pub rand_uint32 : W → W × ℕ

-- `srtt` and `rto` are the package's variables, in nanoseconds.
pub record Io (W : Type 0) : Type 0 where
  pub srtt : ℕ
  pub rto : ℕ
  pub world : W
  pub trace : List Event

pub record Machine (W : Type 0) : Type 0 where
  pub pcb : Pcb
  pub io : Io W

abbrev pub emit : {W : Type 0} → Event → Io W → Io W
emit e io = record io { trace = e ∷ io.trace }

-- `errCh <- err` without a test for nil.
abbrev pub send_on : {W : Type 0} → Option Chan → Option Error → Io W → Io W
send_on none e io = emit Event.blocked io
send_on (some ch) e io = emit (Event.notify ch e) io

-- `if errCh != nil { errCh <- err }`.
abbrev pub send_if : {W : Type 0} → Option Chan → Option Error → Io W → Io W
send_if none e io = io
send_if (some ch) e io = emit (Event.notify ch e) io

-- `pcb.transition(state)`.
abbrev pub transition : {W : Type 0} → PcbState → Machine W → Machine W
transition s m = record m { pcb = record m.pcb { state = s } }

-- The value that `Newpcb` makes: everything is zero but the state and the address.
unfoldable pub new_pcb : Endpoint → Pcb
new_pcb local = record {
  state = PcbState.closed;
  local = local;
  foreign = record { addr = 0; port = 0 };
  snd = record { una = 0; nxt = 0; wnd = 0; up = 0; wl1 = 0; wl2 = 0 };
  iss = 0;
  rcv = record { nxt = 0; wnd = 0; up = 0 };
  irs = 0;
  mss = 0;
  rx_queue = λ i. 0;
  rx_len = 0;
  retx_queue = [];
  rcv_cmd = no_rcv_cmd;
  timeout = 0;
  last_tx_time = 0;
}

abbrev pub lbound : ℕ
lbound = 1000000000

abbrev pub ubound : ℕ
ubound = 60000000000

-- `MSL`: two minutes.
abbrev pub msl : ℕ
msl = 120000000000

-- `calculateRTO(rtt)`: the new `srtt` and `rto`. Durations are below 2^63, where nothing wraps.
unfoldable pub calculate_rto : {W : Type 0} → ℕ → Io W → Io W
calculate_rto rtt io =
    let srtt = 7 * io.srtt / 10 + 3 * rtt / 10 in
    record io {
      srtt = srtt;
      rto =
          if ltb (17 * srtt / 10) lbound
          then lbound
          else (if ltb ubound (17 * srtt / 10) then ubound else 17 * srtt / 10);
    }
