-- ===== src/Tcp/Text/Names.antt =====
-- The names in the log of pkg/tcp tell apart what they name.
use go_network.Base.{
  ℕ, zero, suc, ◌+◌, ◌<◌, ◌≡◌, ◌==◌, ==_iff, ◌&&◌, refl, ap, ◌∙◌, arith, List, [], ◌∷◌, Bool, true,
  false, Bool-cases, Option, some, none, inl, inr, if◌then◌else◌,
}
use go_network.Strings.{codes, split}
use go_network.Tcp.ControlFlag.{cwr, ece, urg, ack, psh, rst, syn, fin}
use go_network.Tcp.Pcb.{PcbState}
use go_network.Tcp.Text.{flag_string, pcb_state_string}

same_text : List ℕ → List ℕ → Bool
same_text [] [] = true
same_text (a ∷ s) (b ∷ t) = let rest = same_text s t in a == b && rest
same_text _ _ = false

-- The bit of a name.
bit_of : List ℕ → ℕ
unfolding same_text
bit_of name =
    if same_text name (codes "CWR")
    then cwr
    else if same_text name (codes "ECE")
    then ece
    else if same_text name (codes "URG")
    then urg
    else if same_text name (codes "ACK")
    then ack
    else if same_text name (codes "PSH")
    then psh
    else if same_text name (codes "RST")
    then rst
    else if same_text name (codes "SYN")
    then syn
    else if same_text name (codes "FIN")
    then fin
    else 0

bits_of : List (List ℕ) → ℕ
unfolding bit_of
bits_of [] = 0
bits_of (name ∷ names) = bit_of name + bits_of names

-- The bits whose names stand in a text, each with a space behind it.
unfoldable pub parse_flags : List ℕ → ℕ
unfolding split bits_of
parse_flags text = bits_of (split b' ' text)

holds_below : ℕ → (ℕ → Bool) → Bool
holds_below zero test = true
holds_below (suc n) test = let rest = holds_below n test in test n && rest

below-holds : (n : ℕ) (test : ℕ → Bool) (k : ℕ) → holds_below n test ≡ true → k < n → test k ≡ true
unfolding holds_below
below-holds zero test k h l = ground (arith, l)
below-holds (suc n) test k h l = elim (Bool-cases (k == n)) [
  | inl e ↦ let z : k ≡ n = (==_iff k n).0 e in ap test z ∙ ground (arith, h)
  | inr e ↦ below-holds n test k (ground (arith, h)) (ground (arith, e, l))
]

all_flags : holds_below 256 (λ f. parse_flags (flag_string f) == f) ≡ true
unfolding holds_below parse_flags flag_string
all_flags = refl

-- The text of the control flags gives all eight bits back.
pub parse_flags-flag_string : (f : ℕ) → f < 256 → parse_flags (flag_string f) ≡ f
parse_flags-flag_string f l =
    (==_iff (parse_flags (flag_string f)) f).0
      (below-holds 256 (λ k. parse_flags (flag_string k) == k) f all_flags l)

states : List PcbState
states =
    PcbState.listen ∷ PcbState.syn_sent ∷ PcbState.syn_received ∷ PcbState.established
    ∷ PcbState.fin_wait1 ∷ PcbState.fin_wait2 ∷ PcbState.close_wait ∷ PcbState.closing
    ∷ PcbState.last_ack ∷ PcbState.time_wait ∷ PcbState.closed ∷ []

first_named : List ℕ → List PcbState → Option PcbState
unfolding same_text pcb_state_string
first_named name [] = none
first_named name (s ∷ rest) = elim (same_text name (pcb_state_string s)) [
  | true ↦ some s
  | false ↦ first_named name rest
]

-- The state of a name.
unfoldable pub parse_state : List ℕ → Option PcbState
unfolding first_named states
parse_state name = first_named name states

-- The name of a state gives the state back.
pub parse_state-pcb_state_string : (s : PcbState) → parse_state (pcb_state_string s) ≡ some s
unfolding parse_state pcb_state_string
parse_state-pcb_state_string PcbState.listen = refl
parse_state-pcb_state_string PcbState.syn_sent = refl
parse_state-pcb_state_string PcbState.syn_received = refl
parse_state-pcb_state_string PcbState.established = refl
parse_state-pcb_state_string PcbState.fin_wait1 = refl
parse_state-pcb_state_string PcbState.fin_wait2 = refl
parse_state-pcb_state_string PcbState.close_wait = refl
parse_state-pcb_state_string PcbState.closing = refl
parse_state-pcb_state_string PcbState.last_ack = refl
parse_state-pcb_state_string PcbState.time_wait = refl
parse_state-pcb_state_string PcbState.closed = refl
