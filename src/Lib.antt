-- ===== src/Lib.antt =====
-- TON-Tunnel: a TCP tunnel over the TON network. A client frames the streams of local applications
-- (OPEN, DATA, CLOSE, ERROR), ADNL messages carry the frames, and an egress node connects to the
-- targets and relays the bytes.
--
-- The parts, and where they are modelled:
--   - the frame formats of PROTOCOL.md, independent of either codec: Hope;
--   - the node's codec, ton-egress-node/src/protocol.cpp: Wire and Protocol, with Hope/Server for what
--     it has to do with the formats;
--   - the node, ton-egress-node/src/egress_node.cpp: Egress/State (the classes), Egress/Policy
--     (isClientAllowed, isPortAllowed, isHostBlocked, isAddressBlocked), Egress/Frames
--     (tryGetFrameLength), Egress/Connect (connectIPv4WithTimeout, the loop over addresses),
--     Egress/Streams (closeStream, handleClose), Egress/Open (handleOpen), Egress/Relay (handleData,
--     the reader thread), Egress/Run (onAdnlMessage, monitorIdleTimeoutLoop, start, stop), and
--     Egress/Invariant for the invariant of the tables over all of them;
--   - the node's ADNL backend, ton-egress-node/src/ton_adnl_backend.cpp: Adnl, with its start, stop and C
--     interface in Adnl/Runtime;
--   - the node's transport, ton-egress-node/src/ton_transport_factory.cpp: Transport, with the handles
--     of the library in Transport/Handles and the order of its calls in Transport/Order;
--   - the node's configuration, ton-egress-node/src/config.cpp: Settings, with what the expressions
--     find in a printed text in Settings/Keys, Settings/Values and Settings/Search, one setting in
--     Settings/Fields and the whole file in Settings/Loading;
--   - the Windows client's SOCKS server, TON-Tunnel/LocalSocks5Server.cpp: Desktop/Socks;
--   - its packet bridge, TON-Tunnel/WintunLwipBridge.cpp: Desktop/Packets (checksum, choice of packets),
--     Desktop/Packets/Dns (names, queries, replies), Desktop/Packets/Connections (lwIP's callbacks, the
--     relay thread, the pending buffers);
--   - its backend, DirectAdnlBackend of TON-Tunnel/TON-Tunnel.cpp: Desktop/Direct;
--   - the client library that both clients call, app/src/main/cpp/ton_adnl_client_backend.cpp:
--     AdnlClient, with the C interface in AdnlClient/Handles;
--   - the Android bridge, app/src/main/cpp/ton_transport.cpp: Android;
--   - the Windows client's codec, TON-Tunnel/TonProtocol.cpp: Desktop/Codec, with Hope/Client (the
--     encoders) and Hope/Inbound (the decoder) for the formats;
--   - the Windows client's core, TON-Tunnel/TonClientCore.cpp: Desktop/Core;
--   - both ends together, and the desktop's core over its backend (Link/Uplink):
--     Link;
--   - the theorems at concrete inputs: Tests. Base holds what all of them share.
--
-- State and steps. The node is a record of its tables, a heap of stream objects with pointers as
-- indices, its counters, and a log of what it sent, wrote and closed. A thread's work is cut at its
-- locks and waits: a message of the transport, a round of a reader, a round of the idle monitor, start
-- and stop are steps, and Egress/Invariant/Reach takes them in any order. The client's openStream runs
-- on rounds, each with the clock's readings and the packets that the receiver took meanwhile.
--
-- What is a parameter: getaddrinfo, inet_pton, the answers of the socket calls, of send and recv, of
-- the transport's and the backend's send, dlopen and dlsym, the TON library's key import and resolver,
-- the JVM's allocations, and the clock.
--
-- Bytes are natural numbers, and lengths and times do not wrap; a length field is written modulo its
-- width, as the code writes it. The loops over a payload run on its length plus one as fuel, which is
-- enough because every frame has five bytes at least and every chunk one.
--
-- The clients and the transport are records too, and the client library's objects a table of handles,
-- so that a use of a destroyed handle would show. A connection's pending buffers change by rounds of
-- the relay thread and by lwIP's callbacks, in any order.
--
-- Not modelled: log output, setsockopt and the exceptions, which only allocation and thread creation
-- raise, beyond std::stoul's; two closes that overlap inside closeStream, which holds its lock for the
-- tables only; the ADNL actors; the packet bridge's two SOCKS requests, which nothing calls; the set-up
-- of Wintun and lwIP; the windows, the proxy settings and the settings file of the Windows application;
-- the Kotlin application, which is in another language.
pub mod Adnl
pub mod AdnlClient
pub mod Android
pub mod Base
pub mod Desktop
pub mod Egress
pub mod Hope
pub mod Link
pub mod Protocol
pub mod Settings
pub mod Tests
pub mod Transport
pub mod Wire
