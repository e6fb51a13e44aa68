-- ===== src/Lan/Sending.antt =====
-- What a host of the LAN puts on its line.
use go_network.Base.{
  ℕ, ◌≡◌, ◌≤◌, refl, sym, ap, ◌∙◌, arith, List, [], ◌∷◌, length, ltb, true, false, some,
}
use go_network.Errors.{returns}
use go_network.Net.Device.{Line}
use go_network.Net.Protocol.{proto_type_arp}
use go_network.Net.Registry.{is_up, device_output}
use go_network.Device.EtherAddr.{EtherAddr}
use go_network.Device.Frame.{ether_payload_size_max}
use go_network.Device.Kinds.{Ether, ether, FileEnv, device_ops}
use go_network.Device.Transmission.{frame_of, device_output-frame}
use go_network.Arp.Protocol.{Arp, Frame}
use go_network.Lan.{
  Host, Below, put_on_line, send_frames, after_arp, line_of, dev_ptr, hear, hear_last, arrive,
}

module _ {V : Type 0} ⦃env : FileEnv V⦄ where
  -- The line after a frame.
  abbrev pub with_frame : List ℕ → Line V → Line V
  with_frame frame l = record l { written = frame ∷ l.written; world = (env.write frame l.world).0 }

  pub put_on_line-frame :
      (e : Ether) (typ : ℕ) (packet : List ℕ) (dst : EtherAddr) (l : Line V)
      → is_up (device_ops {W = V}) (ether e) ≡ true
      → length packet ≤ ether_payload_size_max
      → let frame = frame_of e packet typ dst in
        put_on_line e typ packet (some dst) l ≡ (with_frame frame l, (env.write frame l.world).1)
  unfolding put_on_line
  put_on_line-frame e typ packet dst l up small =
      let fits : ltb ether_payload_size_max (length packet) ≡ false = ground arith in
      let frame = frame_of e packet typ dst in
      let sent : device_output device_ops dev_ptr (ether e) packet typ (some dst) l
          ≡ returns (with_frame frame l, (env.write frame l.world).1) =
        (device_output-frame dev_ptr e packet typ dst l up (omega arith)).0 ∙ rw fits refl in
      ap (line_of l) sent

  -- ARP sent one packet.
  pub after_arp-one :
      (e : Ether) (a : Arp) (f : Frame) (w : Below V)
      → a.frames ≡ f ∷ []
      → is_up (device_ops {W = V}) (ether e) ≡ true
      → length f.bytes ≤ ether_payload_size_max
      → (after_arp e a w).line.written ≡ frame_of e f.bytes proto_type_arp f.dst ∷ w.line.written
  unfolding after_arp send_frames
  after_arp-one e a f w one up small =
      ap (λ fs. (send_frames e fs w.line).written) one
      ∙ ap (λ r. r.0.written) (put_on_line-frame e proto_type_arp f.bytes f.dst w.line up small)

  -- ARP sent nothing.
  pub after_arp-none :
      (e : Ether) (a : Arp) (w : Below V) → a.frames ≡ [] → after_arp e a w ≡ record w { arp = a }
  unfolding after_arp send_frames
  after_arp-none e a w quiet =
      ap (λ fs. record w { arp = record a { frames = [] }; line = send_frames e fs w.line }) quiet
      ∙ ap (λ fs. record w { arp = record a { frames = fs } }) (sym quiet)

  pub hear-written :
      (sender h : Host V) (frame : List ℕ) (rest : List (List ℕ))
      → sender.ip.world.line.written ≡ frame ∷ rest
      → hear sender h ≡ arrive frame h
  unfolding hear
  hear-written sender h frame rest e = ap (λ l. hear_last l h) e
