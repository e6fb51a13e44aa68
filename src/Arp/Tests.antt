-- ===== src/Arp/Tests.antt =====
-- Runs of pkg/arp, and its theorems at concrete inputs.
use go_network.Arp.View.{rx_packet-view, noted, view}
use go_network.Base.{get_or, ℕ, ◌+◌, ◌≡◌, refl, List, [], ◌∷◌, map, some, true, false}
use go_network.Errors.{ok}
use go_network.Device.EtherAddr.{EtherAddr}
use go_network.Arp.Cache.{zero_entry, cache_update, CacheEntry, empty_caches, resolved, cache_alloc}
use go_network.Arp.Search.{find_index, free_entry, get_default, cache_alloc-find_index}
use go_network.Arp.Table.{IsTable}
use go_network.Arp.Header.{ArpEther, arp_op_request, header2data, data2header}
use go_network.Arp.Protocol.{Arp, ArpIface, packet, rx_packet, rx_handler, resolve}
use go_network.Arp.Learning.{place, packet_in, after, started, Reachable-IsTable, resolve-rx_packet}
use go_network.Arp.Answers.{answer, rx_packet_answers, rx_handler_stops}

abbrev peer_ether : EtherAddr
peer_ether = record { a0 = 2; a1 = 0; a2 = 0; a3 = 0; a4 = 0; a5 = 7 }

abbrev own_ether : EtherAddr
own_ether = record { a0 = 2; a1 = 0; a2 = 0; a3 = 0; a4 = 0; a5 = 1 }

abbrev own_iface : ArpIface
own_iface = record { unicast = 0xc0000202; ether = some own_ether }

-- 192.0.2.1 asks for 192.0.2.2.
abbrev question : ArpEther
question = packet arp_op_request peer_ether 0xc0000201 own_ether 0xc0000202

abbrev question_bytes : List ℕ
question_bytes = header2data question

abbrev initial : Arp
initial = record { caches = empty_caches; frames = []; running = true }

-- The table is full: no entry is free.
abbrev full : List CacheEntry
full = map (λ i. resolved i (i + 1) peer_ether) (9 ∷ 8 ∷ 7 ∷ [])

question_valid : data2header question_bytes ≡ ok question
unfolding data2header header2data
question_valid = refl

initial-IsTable : IsTable initial.caches
initial-IsTable = Reachable-IsTable started

Reachable-IsTable_example : IsTable (rx_packet 5 (some own_iface) question_bytes initial).caches
Reachable-IsTable_example =
    Reachable-IsTable (after started (packet_in 5 (some own_iface) question_bytes))

resolve-rx_packet_example :
    resolve 6 (some own_iface) 0xc0000201 (rx_packet 5 (some own_iface) question_bytes initial)
    ≡ (rx_packet 5 (some own_iface) question_bytes initial, ok peer_ether)
resolve-rx_packet_example =
    resolve-rx_packet 5 6 own_iface own_ether question_bytes question initial initial-IsTable
      question_valid refl refl

rx_packet_answers_example :
    ((rx_packet 5 (some own_iface) question_bytes initial).frames
      ≡ answer own_iface own_ether question ∷ [])
    × ((rx_packet 5 (some own_iface) question_bytes initial).running ≡ true)
rx_packet_answers_example =
    rx_packet_answers 5 own_iface own_ether question_bytes question initial question_valid refl refl

abbrev other_iface : ArpIface
other_iface = record { unicast = 0xc0000209; ether = some own_ether }

rx_handler_stops_example :
    rx_handler
      ((5, some other_iface, question_bytes) ∷ (6, some own_iface, question_bytes) ∷ [])
      initial
    ≡ record initial {
      caches = (cache_update 5 0xc0000201 peer_ether empty_caches).0;
      running = false;
    }
rx_handler_stops_example =
    rx_handler_stops 5 other_iface question_bytes question
      ((6, some own_iface, question_bytes) ∷ []) initial refl question_valid refl

cache_alloc-find_index_example : cache_alloc full ≡ get_default (find_index free_entry 0 full) 0
cache_alloc-find_index_example = cache_alloc-find_index full

rx_packet-view_example :
    view (rx_packet 5 (some own_iface) question_bytes initial).caches 0xc0000201
    ≡ noted 5 0xc0000201 peer_ether
        (get_or initial.caches (place 0xc0000201 initial.caches) zero_entry)
        (view initial.caches)
        0xc0000201
rx_packet-view_example =
    rx_packet-view 5 own_iface question_bytes question initial 0xc0000201 initial-IsTable
      question_valid refl
