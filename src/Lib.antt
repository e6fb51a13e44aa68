-- ===== src/Lib.antt =====
-- A verification library for go-network, a TCP/IP stack in user space (package github.com/hedwig100/go-network).
--
-- The program. A device (pkg/device) hands frames to the protocols that pkg/net has registered: ARP
-- (pkg/arp) and IP (pkg/ip). IP checks the header, and hands the payload to ICMP (pkg/icmp), UDP
-- (pkg/udp) or TCP (pkg/tcp). TCP finds the control block of the segment, runs the RFC 793 event
-- processing on it, and answers through TxHandler, ip.TxHandler, the routing table and the ARP cache.
-- User calls and a timer work on the same control blocks; a mutex makes every one of them one step.
--
-- Files, and the code they are about.
--   Base, Errors, Wire   lists and words over the native numbers, the errors, Go's copy into a slice
--   Utils                pkg/utils/utils.go: Hton16 to Ntoh32, CheckSum; theorems in Bytes, Checksum
--   Strings              Go's strings.Split and strconv.Atoi, and the verb %d; lemmas in Decimal;
--                        fmt.Sprintf in Printf
--   Text                 in most directories: the String methods of pkg/ for the log; theorems on those
--                        of pkg/tcp in Tcp.Text.Names
--   Udp.Endpoint         pkg/udp/endpoint.go: Endpoint, its String, Str2Endpoint; theorem in Text
--   Udp.Header           pkg/udp/header.go: the codec; its round trip in RoundTrip
--   Udp.Pcb              pkg/udp/pcb.go: Open, Close, Bind, Send, Listen; pkg/udp/protocol.go: RxHandler,
--                        TxHandler; theorems in Sockets, and in Datagram (from host to host)
--   Tcp.ControlFlag      pkg/tcp/header.go: the control flags and isSet
--   Tcp.Header           pkg/tcp/header.go: Header, data2header, header2data; round trip in RoundTrip
--   Tcp.Pcb              pkg/tcp/pcb.go: the control block, its parts and states; the environment
--   Tcp.Queue            pkg/tcp/pcb.go: queueAdd, queueAck, queueFlush, removeRetx, signalCmd,
--                        signalErr; theorems in Remove (the queue) and Delivery (RECEIVE)
--   Tcp.Calls            pkg/tcp/pcb.go: Open, Send, Receive, Close, Abort, Status
--   Tcp.Registry         pkg/tcp/pcb.go: Newpcb, Deletepcb; pkg/tcp/protocol.go: RxHandler;
--                        theorem on the local addresses in Unique
--   Tcp.Output           pkg/tcp/protocol.go: TxHelperTCP, TxHandler
--   Tcp.Segment          pkg/tcp/protocol.go: the segment, the acceptance test; theorems in Window
--   Tcp.Handshake        pkg/tcp/protocol.go: segmentArrives in CLOSED, LISTEN and SYN-SENT
--   Tcp.Synchronized     pkg/tcp/protocol.go: segmentArrives in the other states, check by check;
--                        theorems on the text in Text
--   Tcp.Arrives          pkg/tcp/protocol.go: segmentArrives; the state diagram in Edges, refusals
--                        and resets in Outcomes, segments outside the window in Outside
--   Tcp.Timer            pkg/tcp/timer.go: tcpTimer, calculateRTO; theorems in Retransmission
--   Tcp.Frames           what the operations of the queue and the output leave as it is
--   Tcp.Invariant        the well-formedness of a control block, kept by segments (Arrival) and by
--                        calls and the timer (Calls)
--   Tcp.Reachable        the life of a control block as a step relation
--   Tcp.Diagram          what segments, user calls and the timer do to the state
--   Tcp.Peers            two peers, one's segments arriving at the other: the handshake (Opening,
--                        Handshake, Established, Connect), text (Text, Exchange, Idle,
--                        Stream, Conversation, Session), the close (Closing, Close, Release),
--                        bytes (Delivery)
--   Tests                in most directories: runs, and the theorems at concrete inputs
--   Net.Protocol         pkg/net/protocol.go, and DeviceInputHandler of devices.go: the protocols' queues
--   Net.Device           pkg/net/devices.go, interface.go: what pkg/net asks of a device, as a record of
--                        operations and two laws
--   Net.Registry         pkg/net/devices.go, interface.go, net.go: DeviceRegister, DeviceOutput,
--                        IfaceRegister, GetIface, Close, over any such record; theorems in Families
--   Device.EtherAddr     pkg/device/ethernet_address.go
--   Device.Frame         pkg/device/ethernet.go: the Ethernet header and its codec
--   Device.Kinds         pkg/device/ethernet.go, loopback.go, null.go: the devices, which fill the
--                        record of Net.Device; theorems in Reception and Transmission
--   Device.Raw           pkg/device/raw/ioctl.go, tuntap.go: OpenTap, GetAddr and the requests;
--                        pkg/device/ethernet.go: EtherInit; theorem in Descriptors
--   Arp.Cache            pkg/arp/cache.go and timer.go: the table; theorems in Search and Table
--   Arp.Header           pkg/arp/header.go: the codec; its round trip in RoundTrip
--   Arp.Protocol         pkg/arp/protocol.go: RxHandler, Reply, Request, Resolve; theorems in Learning
--                        (the table), View (the table as a map) and Answers (frames, the loop)
--   Ip.ProtoType         pkg/ip/ip_protocol.go: the types of the upper protocols
--   Ip.Address           pkg/ip/utils.go: Str2Addr; pkg/ip/protocol.go: String of Addr; theorems in Dotted
--   Ip.Iface             pkg/ip/interface.go, and what is read of a device (pkg/net/devices.go)
--   Ip.Routing           pkg/ip/routing.go: routeAdd, LookupTable
--   Ip.Header            pkg/ip/header.go: the codec; its round trip in RoundTrip
--   Ip.Protocol          pkg/ip/protocol.go and ip_protocol.go: TxHandler, RxHandler, ProtoRegister;
--                        theorems in Delivery (receiving), Transfer (from host to host) and
--                        Resolution (with the resolver's answer)
--   Ip.Setup             pkg/ip/interface.go: NewIface, IfaceRegister; pkg/ip/routing.go:
--                        SetDefaultGateway
--   Lan                  hosts on one Ethernet: ip.TxHandler over Resolve of pkg/arp, net.DeviceOutput
--                        and the Ethernet device; a frame that arrives, and RxHandler of ARP and of IP
--                        behind it (Reading, Sending, Request, Exchange); theorem in FirstPacket
--   Setting              pkg/setting.go: NetInit, NetShutdown; theorems in Tables and Invariant
--   Icmp.Enum            pkg/icmp/enum.go: the types and codes of messages, their names
--   Icmp.Message         pkg/icmp/header.go, protocol.go: the codec, TxHandler, RxHandler; theorems in
--                        Echo (the checksum), Answer (to a ping) and Ping (there and back)
--   Example.UdpEcho      example/udp/main.go: the echo server; theorems in Answers (a queue of datagrams)
--                        and RoundTrip (a client and the server)
--
-- How the model reads the code. A uint8, uint16 or uint32 is a natural number, and every place where
-- the code can wrap around has its modulus written out. A pointer receiver is explicit state: a
-- function from a Machine, which is a control block and its surroundings (the round trip estimates,
-- the world, and a trace of what was sent and signalled, newest first), to a Machine. A channel is a
-- number, a send on it an event of the trace. Where segmentArrives returns early, a check ends in
-- done, otherwise in next (Tcp.Flow). Code outside the repository, and ip.TxHandler below TCP, are
-- operations of the environment Env: the transmission, which can fail, the clock, and math/rand. The
-- hypotheses on them are that rand.Uint32 returns 32 bits, and, for two peers, that ip.TxHandler takes
-- every segment. Below IP, the resolver and
-- net.DeviceOutput are operations of IpEnv; for a datagram or a message there and back the hypothesis is that
-- the resolver knows the next hop. The variables of a package (the ARP table, the routes, the
-- identification) are fields of a record that its functions take and return.
--
-- Fuel and bounds. The folding loop of CheckSum runs on fuel 3, and two rounds are enough for a sum of
-- 32 bits. The port search of Send (pkg/udp/pcb.go) runs on fuel 65536: after so many rounds a uint16 is
-- back where it began, and the outcome without a port is that the call never returns. Every other loop
-- is structural recursion over the slice that the code ranges over.
--
-- Devices. The device file of an Ethernet device is the environment FileEnv. What DeviceInputHandler
-- passes on is bytes, or a number of bytes of the receive buffer of a device, which the slice shares
-- with the device: the buffer is a field of Ether, and every frame that is read is copied into it.
--
-- In Lan a host reads a frame, and its protocols take what the frame gave them, before it reads the next
-- one; the frames that the code hands to net.DeviceOutput one by one are put on the line when the round of
-- ARP that made them is over.
--
-- Not modelled. The calls of log, with what they print besides the String methods; the system calls below
-- pkg/device/raw, which are the environment Sys; goroutines below the level of one locked call, and with
-- them example/tcp, which selects over channels without a buffer; the sharing of a backing array by an
-- append; example/icmp, which only starts the library.
pub mod Strings
pub mod Setting
pub mod Lan
pub mod Base
pub mod Errors
pub mod Utils
pub mod Wire
pub mod Udp
pub mod Tcp
pub mod Net
pub mod Device
pub mod Example
pub mod Arp
pub mod Ip
pub mod Icmp
