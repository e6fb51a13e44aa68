-- ===== src/Setting/Tests.antt =====
-- NetInit at concrete inputs.
use go_network.Base.{ℕ, arith, true, none, inl}
use go_network.Device.EtherAddr.{EtherAddr}
use go_network.Device.Kinds.{FileEnv}
use go_network.Setting.{System, empty_system, net_init}
use go_network.Setting.Invariant.{IsWellFormed, net_init-IsWellFormed}

instance abbrev file : FileEnv ℕ
file = record { write = λ frame w. (w, none); close = λ w. (w, none) }

abbrev mac : EtherAddr
mac = record { a0 = 2; a1 = 0; a2 = 0; a3 = 0; a4 = 0; a5 = 1 }

abbrev started : System
started = (net_init ℕ true (inl mac) empty_system).0

net_init-IsWellFormed_example : IsWellFormed started
net_init-IsWellFormed_example =
    net_init-IsWellFormed ℕ true (inl mac) empty_system (tt, λ u. omega arith)
