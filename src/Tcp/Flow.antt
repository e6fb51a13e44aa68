-- ===== src/Tcp/Flow.antt =====
-- Postconditions of the steps of segmentArrives.
use go_network.Tcp.Pcb.{Machine}
use go_network.Tcp.Segment.{Flow, done, next, ◌>>=◌, finish}

-- The machine that a step leaves satisfies P, whether the handler returned or goes on.
abbrev pub OnFlow : {W : Type 0} → (Machine W → Type 0) → Flow W → Type 0
OnFlow P (done r) = P r.0
OnFlow P (next n) = P n

module _ {W : Type 0} (P : Machine W → Type 0) where
  pub bind-OnFlow :
      (f : Flow W) (g : Machine W → Flow W)
      → OnFlow P f
      → ((n : Machine W) → P n → OnFlow P (g n))
      → OnFlow P (f >>= g)
  bind-OnFlow (done r) g h k = h
  bind-OnFlow (next n) g h k = k n h

  pub finish-OnFlow : (f : Flow W) → OnFlow P f → P (finish f).0
  finish-OnFlow (done r) h = h
  finish-OnFlow (next n) h = h
