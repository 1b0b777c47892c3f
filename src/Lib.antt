-- ===== src/Lib.antt =====
-- A verification library for bork, a voice and screen-sharing room of peers (Go).
--
-- The program. Peers exchange UDP datagrams of at most 1200 bytes. `internal/protocol` says how each
-- datagram is written, sealed and read. `internal/peer` keeps a session for each other peer: a counter
-- and a replay window for its packets, and a reliable transport that cuts messages into fragments,
-- sends them under a congestion window, acknowledges them, and puts them together again. A reliable
-- packet of the transport is sealed by `MarshalReliable`, travels alone or inside a bridge packet of a
-- forwarding peer, and is opened by `ParseReliable`; the two words of its acknowledgment are the
-- receiver's replay window for fragments.
--
-- The files. `Base` holds what all share: lists over the native numbers, Boolean tests, results, bytes
-- in big-endian order, bits of a word, and maps as association lists.
-- `Protocol.Wire` is internal/protocol/wire.go: constants, `append_prefix`, `parse_prefix`,
-- `valid_packet_size`, the session header. `Protocol.Sealed` is the sealing and opening that
-- `MarshalControl`, `MarshalReliable` and `MarshalBridge` share. `Protocol.Control`,
-- `Protocol.Reliable`, `Protocol.Bridge`, `Protocol.RoomDatagram` and `Protocol.Hello` are the files of
-- the same name of internal/protocol, one function for each Go function.
-- `Peer.Window` is internal/peer/control_flow.go: `accept`, `may_accept`, `next_send_sequence`,
-- `may_receive`, `commit_received`. `Peer.Transport` and its children are internal/peer/reliable.go:
-- `Queue` has `queue`, `canQueue`, `pendingChannel` and the discards, `Congestion` has
-- `consumeFragmentAck` and `updateRTT`, `Send` has `nextSend`, `commit` and `reject`, `Receive` has
-- `receive` and `deliverOrdered`, and `Run` puts the calls in any order.
-- `Media.Flow` is internal/media/flow.go: the queues between the audio engine and the peers, with `Run`
-- for its calls in any order.
-- `Tracker.Bencode` is internal/networking/discovery/tracker/bencode.go without the peers, and
-- `Invite.Base58` is internal/invite/base58.go. `Audio.FrameQueue` is internal/audio/frame_queue.go.
-- `Screen` is internal/peer/screen_video.go: `State` and `Fragments` are its codecs, `Receive` what
-- arrives. A stream key is a number; the loops over Go maps run in the order of the list, and the eviction
-- loop has as many rounds as there are assemblies, of which each round removes one.
-- `Topology` is the message of internal/peer/topology_message.go, `Fanout` the plan and the assignment of
-- internal/peer/fanout.go. Peer ids are the numbers of their bytes.
-- `Endpoint.Stun` is internal/networking/endpoint/stun.go.
--
-- State. A Go struct is a record with its fields; a method with a pointer receiver takes the record
-- and answers the new one. A `*reliableChannel` is its key in `channels`, a `*reliableFragment` is its
-- channel and sequence. A Go map is an association list, and where Go ranges over one the order is
-- the order of that list. An `error` is a value of a data type, with one constructor for each kind of
-- refusal.
--
-- Numbers. Every number is a natural number. What is unsigned in Go has its wrap-around written out
-- where the code can reach it (`slide`, `sub64`, `next_start`). Sizes, counters and times are `int` and
-- `int64` in Go: here they do not wrap, and a subtraction stops at 0. Times are nanoseconds.
--
-- Fuel. `deliver_from` takes as many rounds as the channel has reassemblies, and each round removes one.
-- `scan_channels` and `scan_acks` take one round for each channel, as the loops do, and `fragments_from`
-- one for each fragment. `skip_value` takes one for each call and each round of a loop: twice the bytes
-- that are left, and one more, are enough. `digits58` takes two for each byte of its input, and
-- `minimal_bytes` one for each digit. `parse_neighbors` and `read_attributes` take one for each byte, of
-- which every round consumes some, `build_rounds` one for each listener that is not covered, and `evict`
-- one for each assembly. Out of rounds, `skip_value` and `read_attributes` answer with an error of the
-- model's own, which no other path of theirs gives.
--
-- Parameters. The AEAD of golang.org/x/crypto is a record of functions with the laws `IsAead`: it opens
-- what it has sealed, it opens nothing else, and it adds a constant number of bytes. The MAC of the
-- admission key is a function to bytes, 32 of them where a theorem says so. Concrete instances
-- that satisfy the laws stand with the tests.
--
-- Not modelled: sockets, timers and goroutines (the client loop, the endpoint's sockets, discovery, port
-- mapping), the session table and with it what a message changes in it (topology snapshots, member
-- states, the deployment of a fanout plan, the local screen share), file transfer, the tracker's peer
-- lists, the rest of the audio engine, screen capture, the application and its window, the TypeScript
-- front end and the JavaScript tracker, and the derivation of session keys.
pub mod Base
pub mod Audio
pub mod Endpoint
pub mod Fanout
pub mod Invite
pub mod Media
pub mod Peer
pub mod Protocol
pub mod Screen
pub mod Topology
pub mod Tracker
