-- ===== src/Lib.antt =====
-- Verification of the transport core of wired, a QUIC, TLS 1.3 and HTTP/3 library in C without libc.
--
-- The program is built in layers. Variable-length integers (src/common/bytes/varint) are what frames and
-- headers are written with. A packet carries frames under a truncated packet number
-- (src/transport/packet). Frames act on streams (src/transport/stream): flow control and stream
-- limits bound what a peer may send, a buffer puts the bytes of a stream back in order, and two
-- table-driven state machines follow its two halves (src/transport/conn/lifecycle/fsm is the engine).
-- Each packet sent is recorded until an ACK or loss detection reports it, and congestion control and
-- timers follow these reports (src/transport/recovery). A connection has a phase, packet number counters,
-- paths and identifiers, and an orderly end (src/transport/conn).
--
-- Files, and the code they model:
--   Varint, BigEndian    src/common/bytes/varint/varint.c: len, encode, decode, put, take
--   Frame                src/transport/packet/frame/frame: the codecs, by the names of the C functions
--                        without `quic_`: FlowControl (flowctl.c), Data (frame.c), Ack (ack.c),
--                        StreamControl (stream_ctl.c), ConnControl (connctl.c, ncid.c); Every states
--                        of them all what holds of each
--   Frame.Kinds          dispatch.c and permit.c of src/transport/packet/frame/frame
--   Frame.Walk           src/transport/packet/frame/pipeline/framewalk.c
--   Frame.Dispatch       src/transport/packet/frame/framedispatch/dispatch_state.c, `dispatch_all` of
--                        src/transport/conn/loop/connio/connio.c, and
--                        src/transport/recovery/detect/ackrange/ackrange_process.c
--   PacketNumber         src/transport/packet/header/packet/pnum.c (pnum_len, encode, decode) and pnlen.c
--   PacketHeader         src/transport/packet/header/packet/header.c
--   Retry                src/transport/packet/header/packet/retry.c
--   VersionNegotiation   src/transport/packet/header/packet/vneg.c, with the connection ids of Retry
--   Coalesce             src/transport/packet/header/packet/coalesce.c, and quic_udploop_split of
--                        src/transport/io/udp/udploop/rxloop.c
--   Fsm                  src/transport/conn/lifecycle/fsm/fsm.c
--   Stream.Flow          src/transport/stream/flow/flow/flow.c, credit.c, stream_flow.c, dual_flow.c
--   Stream.FinalSize     src/transport/stream/flow/flow/finalsize.c
--   Stream.Limits        src/transport/stream/flow/flow/streams.c, stream_credit.c, and
--                        src/transport/stream/flow/flowviol/flowviol.c
--   Stream.Reassembly    src/transport/stream/flow/flow/reassemble.c, stream_read.c
--   Stream.States        src/transport/stream/data/stream/stream.c, bidi.c
--   Stream.Ids           src/transport/stream/data/stream/stream_id.c, stream_limit.c, stream_role.c
--   Recovery.SentPackets src/transport/recovery/rtx/sentpkt (on_send, ack_process, loss_detect) and
--                        src/transport/recovery/detect/lossdrive (lossdrive_on_ack, loss_delay)
--   Recovery.AckRanges   src/transport/recovery/detect/ackgen/ackrange.c
--   Recovery.InFlight    src/transport/recovery/detect/recovery/sent.c
--   Recovery.Congestion  src/transport/recovery/congestion
--   Recovery.Rtt         src/transport/recovery/detect/recovery (rtt.c, pto.c and beside them),
--                        ptobackoff.c of lossdrive, and src/transport/recovery/detect/hspto
--   Recovery.SentMeta    src/transport/recovery/rtx/sentmeta
--   Recovery.AckPolicy   ackpolicy.c of src/transport/recovery/detect/recovery, ackgen.c and ackfreq.c of
--                        src/transport/recovery/detect/ackgen, arm.c and probe_space.c of
--                        src/transport/recovery/detect/hspto
--   Conn.Phase           src/transport/conn/lifecycle/conn/conn.c
--   Conn.Close           src/transport/conn/lifecycle/closelife
--   Conn.Path            src/transport/conn/cid/path/path.c, antiamp.c
--   Conn.CidPool         src/transport/conn/cid/cid/cidpool.c
--   Conn.Pmtu            src/transport/conn/cid/pmtu/pmtu.c
--   Conn.Migrate         src/transport/conn/cid/migrate/migrate.c
--   Conn.RecvPn          src/transport/conn/pnspace/recvpn/recvpn.c
--   Conn.CryptoRecv      src/transport/conn/loop/crecv
--   H3Frame              src/app/http3/core/h3/frame.c, with the cursor of Frame.Wire
--   Common               lists, options, Boolean tests, machine words, bit operations
--
-- A struct is a record; a function that changes one through a pointer returns the new record, with its
-- result beside it. A C truth value is a Boolean. A failing function returns `none`. A fixed array of
-- slots is a list, for any length: the capacities of the source (256 packets, 4096 bytes) are instances.
-- A buffer to write to is the list of the bytes written so far, with the capacity as an argument; a
-- cursor to read from is the list of the bytes left. Machine words are natural numbers, and the 64-bit
-- operations that can wrap are +ᵤ, -ᵤ and *ᵤ of Common.Word, which do.
--
-- Loops over arrays are recursions over lists. Loops that count to 4 have fuel 3, since the counter
-- starts at 1 (PacketNumber); the loops of the reassembly buffers run once per byte of their
-- capacity, and those over a payload or a datagram once per byte of it, since each frame or packet
-- takes a byte at least.
--
-- Not modelled: cryptography and TLS; HTTP/3 but for its frames; short headers, the part of long
-- headers that versions define but for Retry, and packet protection; the connection loop but for its
-- dispatch of frames, tokens and resets; the rebuilding of lost packets. System calls, the clock and
-- random numbers are input and output, and have no model.
pub mod Common
pub mod BigEndian
pub mod Varint
pub mod Frame
pub mod Fsm
pub mod PacketNumber
pub mod PacketHeader
pub mod Retry
pub mod VersionNegotiation
pub mod Coalesce
pub mod Stream
pub mod Recovery
pub mod Conn
pub mod H3Frame
