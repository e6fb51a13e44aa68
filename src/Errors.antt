-- ===== src/Errors.antt =====
-- The errors that the packages make with fmt.Errorf, one constructor to a message, and the outcome of
-- code that can return one, panic or block.
use go_network.Base.{ℕ}

pub data Error : Type 0 where
  -- pkg/net, pkg/device
  already_closed : Error
  data_larger_than_mtu : Error
  same_family_registered : Error
  iface_not_found : Error
  only_ethernet_address : Error
  device_file : ℕ → Error
  device_name_too_long : Error
  errno : ℕ → Error
  -- header codecs
  data_too_small : Error
  data_smaller_than_ihl : Error
  data_smaller_than_total_length : Error
  length_mismatch : Error
  checksum_error : Error
  -- pkg/arp
  arp_only_ethernet : Error
  arp_only_ip : Error
  cache_out_of_range : Error
  cache_not_found : Error
  cache_incomplete : Error
  unsupported_protocol_address : Error
  unsupported_hardware_address : Error
  -- pkg/ip
  source_required : Error
  route_not_found : Error
  source_mismatch : Error
  unreachable : Error
  proto_already_registered : Error
  atoi_syntax : Error
  endpoint_syntax : Error
  -- pkg/icmp
  icmp_type_unknown : Error
  -- pkg/udp, pkg/tcp
  pcb_not_found : Error
  local_already_used : Error
  no_port_to_assign : Error
  data_too_large : Error
  foreign_unspecified : Error
  connection_exists : Error
  connection_does_not_exist : Error
  insufficient_resources : Error
  connection_closing : Error
  receive_already_called : Error
  no_remaining_data : Error
  close_requested : Error
  connection_reset : Error
  connection_refused : Error
  connection_closed : Error
  user_timeout : Error
  retransmission_limit : Error

-- `panic`: a slice bound out of range.
pub data Result {ℓ} (A : Type ℓ) : Type ℓ where
  ok : A → Result A
  err : Error → Result A
  panic : Result A

-- A call that returns, or waits for ever on a channel.
pub data Outcome {ℓ} (A : Type ℓ) : Type ℓ where
  returns : A → Outcome A
  blocked : Outcome A

-- How a step of a longer call ended.
abbrev pub Done : Type 0
Done = Result {0} Unit

-- The next step, unless the last one failed.
abbrev pub and_then {ℓ} : {S : Type ℓ} → S × Done → (S → S × Done) → S × Done
and_then (s, ok _) next = next s
and_then (s, err e) next = (s, err e)
and_then (s, panic) next = (s, panic)
