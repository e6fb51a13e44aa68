-- ===== src/Icmp/Text.antt =====
-- `String` of `Header` in pkg/icmp/header.go, the text of the log.
use go_network.Base.{ℕ, ◌/◌, ◌%◌, List, [], ◌∷◌, ◌==◌, ◌||◌, if◌then◌else◌}
use go_network.Strings.{codes}
use go_network.Strings.Printf.{num, text, sprintf}
use go_network.Icmp.Enum.{type_echo_reply, type_echo, message_type_string, code2string}
use go_network.Icmp.Message.{Header}

abbrev pub echo_format : List ℕ
echo_format =
    codes "\n\t\ttyp: %s, \n\t\tcode: %s,\n\t\tchecksum: %x,\n\t\tid: %d,\n\t\tseq: %d,\n\t"

abbrev pub values_format : List ℕ
values_format = codes "\n\t\ttyp: %s,\n\t\tcode: %s,\n\t\tchecksum: %x,\n\t\tvalues: %x,\n\t"

-- `h.Values>>16` and `h.Values&0xff`.
unfoldable pub header_string : Header → List ℕ
unfolding sprintf message_type_string code2string
header_string h =
    if h.typ == type_echo_reply || h.typ == type_echo
    then sprintf echo_format (
        text (message_type_string h.typ)
        ∷ text (code2string h.typ h.code)
        ∷ num h.checksum
        ∷ num (h.values / 65536)
        ∷ num (h.values % 256)
        ∷ [])
    else sprintf values_format (
        text (message_type_string h.typ)
        ∷ text (code2string h.typ h.code)
        ∷ num h.checksum
        ∷ num h.values
        ∷ [])
