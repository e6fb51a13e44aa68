-- ===== src/Udp/Tests.antt =====
-- Runs of pkg/udp, and its theorems at concrete inputs.
use go_network.Udp.Endpoint.Text.{str2endpoint-endpoint_string}
use go_network.Udp.Endpoint.{endpoint_string, str2endpoint}
use go_network.Base.{◌≡◌, ◌≢◌, refl, arith, [], ◌∷◌, none, some}
use go_network.Errors.{ok}
use go_network.Udp.Pcb.{Pcb, pcb_select, port_loop}
use go_network.Udp.Sockets.{port_loop_used, port_loop_diverges}

-- A block at 192.0.2.2:7, and one that was opened and not bound.
abbrev echo_block : Pcb
echo_block = record { ptr = 1; local = record { addr = 0xc0000202; port = 7 }; rx_queue = [] }

abbrev high_block : Pcb
high_block = record { ptr = 3; local = record { addr = 0xc0000202; port = 49153 }; rx_queue = [] }

abbrev new_block : Pcb
new_block = record { ptr = 2; local = record { addr = 0; port = 0 }; rx_queue = [] }

-- The search of Send gives the port of the other block.
taken_port : port_loop 65536 0xc0000202 49152 (new_block ∷ high_block ∷ []) ≡ some 49153
unfolding port_loop
taken_port = refl

port_loop_used_example : pcb_select 0xc0000202 49153 (new_block ∷ high_block ∷ []) ≢ none
port_loop_used_example =
    port_loop_used 65536 0xc0000202 49152 49153 (new_block ∷ high_block ∷ []) taken_port

port_loop_diverges_example : port_loop 65536 0xc0000202 49152 (new_block ∷ []) ≡ none
port_loop_diverges_example =
    port_loop_diverges 65536 0xc0000202 49152 (new_block ∷ []) (λ q. unfold pcb_select in refl)

str2endpoint-endpoint_string_example :
    str2endpoint (endpoint_string (record { addr = 0xc0000202; port = 8080 }))
    ≡ ok (record { addr = 0xc0000202; port = 8080 })
str2endpoint-endpoint_string_example =
    str2endpoint-endpoint_string (record { addr = 0xc0000202; port = 8080 }) (omega arith)
      (omega arith)
