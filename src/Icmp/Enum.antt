-- ===== src/Icmp/Enum.antt =====
-- pkg/icmp/enum.go: the numbers of the message types and codes, and their names for the log.
use go_network.Base.{ℕ, List, [], ◌∷◌, ◌==◌, if◌then◌else◌}
use go_network.Strings.{codes}
use go_network.Strings.Printf.{num, sprintf}

abbrev pub type_echo_reply : ℕ
type_echo_reply = 0

abbrev pub type_dest_unreach : ℕ
type_dest_unreach = 3

abbrev pub type_source_quench : ℕ
type_source_quench = 4

abbrev pub type_redirect : ℕ
type_redirect = 5

abbrev pub type_echo : ℕ
type_echo = 8

abbrev pub type_time_exceeded : ℕ
type_time_exceeded = 11

abbrev pub type_param_problem : ℕ
type_param_problem = 12

abbrev pub type_timestamp : ℕ
type_timestamp = 13

abbrev pub type_timestamp_reply : ℕ
type_timestamp_reply = 14

abbrev pub type_info_request : ℕ
type_info_request = 15

abbrev pub type_info_reply : ℕ
type_info_reply = 16

-- `String` of `MessageType`, which tests the numbers and not their names.
unfoldable pub message_type_string : ℕ → List ℕ
message_type_string t =
    if t == 0
    then codes "TypeEchoReply"
    else if t == 3
    then codes "TypeDestUnreach"
    else if t == 4
    then codes "TypeSourceQuench"
    else if t == 5
    then codes "TypeRedirect"
    else if t == 8
    then codes "TypeEcho"
    else if t == 11
    then codes "TypeTimeExceeded"
    else if t == 12
    then codes "TypeParamProblem"
    else if t == 13
    then codes "TypeTimestamp"
    else if t == 14
    then codes "TypeTimestampReply"
    else if t == 15
    then codes "TypeInfoRequest"
    else if t == 16
    then codes "TypeInfoReply"
    else codes "UNKNOWN"

-- The codes of an unreachable destination.
abbrev pub code_net_unreach : ℕ
code_net_unreach = 0

abbrev pub code_host_unreach : ℕ
code_host_unreach = 1

abbrev pub code_proto_unreach : ℕ
code_proto_unreach = 2

abbrev pub code_port_unreach : ℕ
code_port_unreach = 3

abbrev pub code_fragment_needed : ℕ
code_fragment_needed = 4

abbrev pub code_source_route_failed : ℕ
code_source_route_failed = 5

-- The codes of a redirection.
abbrev pub code_redirect_net : ℕ
code_redirect_net = 0

abbrev pub code_redirect_host : ℕ
code_redirect_host = 1

abbrev pub code_redirect_tos_net : ℕ
code_redirect_tos_net = 2

abbrev pub code_redirect_tos_host : ℕ
code_redirect_tos_host = 3

-- The codes of an exceeded time.
abbrev pub code_exceeded_ttl : ℕ
code_exceeded_ttl = 0

abbrev pub code_exceeded_fragment : ℕ
code_exceeded_fragment = 1

-- The three inner switches of `code2string`, and it.
abbrev pub unreach_string : ℕ → List ℕ
unreach_string c =
    if c == code_net_unreach
    then codes "CodeNetUnreach(%d)"
    else if c == code_host_unreach
    then codes "CodeHostUnreach(%d)"
    else if c == code_proto_unreach
    then codes "CodeProtoUnreach(%d)"
    else if c == code_port_unreach
    then codes "CodePortUnreach(%d)"
    else if c == code_fragment_needed
    then codes "CodeFragmentNeeded(%d)"
    else if c == code_source_route_failed
    then codes "CodeSourceRouteFailed(%d)"
    else codes "UNKNOWN(%d)"

abbrev pub redirect_string : ℕ → List ℕ
redirect_string c =
    if c == code_redirect_net
    then codes "CodeRedirectNet(%d)"
    else if c == code_redirect_host
    then codes "CodeRedirectHost(%d)"
    else if c == code_redirect_tos_net
    then codes "CodeRedirectTosNet(%d)"
    else if c == code_redirect_tos_host
    then codes "CodeRedirectTosHost(%d)"
    else codes "UNKNOWN(%d)"

abbrev pub exceeded_string : ℕ → List ℕ
exceeded_string c =
    if c == code_exceeded_ttl
    then codes "CodeExceededTTL(%d)"
    else if c == code_exceeded_fragment
    then codes "CodeExceededFragment(%d)"
    else codes "UNKNOWN(%d)"

abbrev pub code_format : ℕ → ℕ → List ℕ
code_format t c =
    if t == type_dest_unreach
    then unreach_string c
    else if t == type_redirect
    then redirect_string c
    else if t == type_time_exceeded
    then exceeded_string c
    else codes "UNKNOWN(%d)"

unfoldable pub code2string : ℕ → ℕ → List ℕ
unfolding sprintf
code2string t c = sprintf (code_format t c) (num c ∷ [])
