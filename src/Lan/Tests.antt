-- ===== src/Lan/Tests.antt =====
-- The theorem on two hosts of one Ethernet, at two hosts.
use go_network.Base.{true, ℕ, ◌+◌, List, [], ◌∷◌, replicate, none}
use go_network.Device.Kinds.{flags, Ether, FileEnv}
use go_network.Arp.Cache.{empty_caches}
use go_network.Ip.Iface.{Iface}
use go_network.Lan.{Host}
use go_network.Lan.Reading.{registered}
use go_network.Lan.Exchange.{route_of}

-- The world counts the frames.
instance abbrev counting : FileEnv ℕ
counting = record { write = λ frame w. (w + 1, none); close = λ w. (w, none) }

abbrev ether_of : ℕ → Ether
ether_of n = record {
  flags = 0x0121;
  interfaces = [];
  addr = record { a0 = 2; a1 = 0; a2 = 0; a3 = 0; a4 = 0; a5 = n };
  buf = replicate 1514 0;
}

abbrev iface_of : ℕ → Iface
iface_of unicast = record {
  dev = record { name = 2; mtu = 1500; flags = 0x0121 };
  unicast = unicast;
  netmask = 0xffffff00;
  broadcast = 0xc00002ff;
}

abbrev host_of : ℕ → ℕ → Host ℕ
host_of n unicast = record {
  dev = ether_of n;
  iface = iface_of unicast;
  ip = record {
    routes = route_of (iface_of unicast) 0xc0000200 0xffffff00 0 ∷ [];
    id = 0;
    world = record {
      now = 1;
      arp = record { caches = empty_caches; frames = []; running = true };
      line = record { protos = registered; written = []; world = 0 };
    };
  };
  uppers = 1 ∷ 17 ∷ 6 ∷ [];
  delivered = [];
}

-- 192.0.2.2 and 192.0.2.1.
abbrev here : Host ℕ
here = host_of 2 0xc0000202

abbrev there : Host ℕ
there = host_of 1 0xc0000201

abbrev hello : List ℕ
hello = 104 ∷ 105 ∷ []
