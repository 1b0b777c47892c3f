-- ===== src/Peer/Transport.antt =====
-- internal/peer/reliable.go: the state of a session's reliable transport. Times and durations are
-- nanoseconds. A `*reliableChannel` is its key in `channels`, from which nothing is ever removed; a
-- `*reliableFragment` is its channel and sequence, which no two fragments of `outbound` share.
pub mod Queue
pub mod Congestion
pub mod Send
pub mod Receive
pub mod Run
pub mod Laws
use bork.Base.{
  ℕ, ◌+◌, ◌-◌, ◌*◌, ◌%◌, Bool, true, false, if◌then◌else◌, ◌==◌, ◌||◌, ◌&&◌, List, [], ◌∷◌, ◌++◌,
  Option, none, some,
}
use bork.Base.Bytes.{Bytes}
use bork.Base.Map.{Map, lookup, insert, value_or}
use bork.Protocol.Wire.{max_reliable_payload}
use bork.Peer.Window.{SequenceWindow, empty_window, u64_mod}

abbrev pub mss : ℕ
mss = max_reliable_payload

abbrev pub initial_cwnd : ℕ
initial_cwnd = 4 * mss

abbrev pub minimum_cwnd : ℕ
minimum_cwnd = 2 * mss

abbrev pub maximum_cwnd : ℕ
maximum_cwnd = 64 * mss

-- In nanoseconds: 500 ms, 100 ms and 5 s.
abbrev pub initial_rto : ℕ
initial_rto = 500_000_000

abbrev pub minimum_rto : ℕ
minimum_rto = 100_000_000

abbrev pub maximum_rto : ℕ
maximum_rto = 5_000_000_000

abbrev pub max_queued_bytes : ℕ
max_queued_bytes = 4_194_304

abbrev pub max_reassembly_bytes : ℕ
max_reassembly_bytes = 4_194_304

abbrev pub max_assemblies : ℕ
max_assemblies = 4096

abbrev pub max_fragments : ℕ
max_fragments = 8192

pub record DeliveredMessage : Type 0 where
  pub channel : ℕ
  pub payload : Bytes

pub record ReliableFragment : Type 0 where
  pub channel : ℕ
  pub fragment_sequence : ℕ
  pub fragment_index : ℕ
  pub fragment_count : ℕ
  pub payload : Bytes
  pub sent_at : ℕ
  pub transmissions : ℕ
  pub timeout_pending : Bool

pub record ReliableAssembly : Type 0 where
  pub fragment_count : ℕ
  pub fragments : Map Bytes
  pub bytes : ℕ

pub record ReliableChannel : Type 0 where
  pub next_fragment_sequence : ℕ
  pub received : SequenceWindow
  pub ack_dirty : Bool
  pub next_delivered_fragment : ℕ
  pub reassemblies : Map ReliableAssembly

pub record Transport : Type 0 where
  pub channels : Map ReliableChannel
  pub outbound : List ReliableFragment
  pub ack_channels : List ℕ
  pub ack_cursor : ℕ
  pub data_cursor : ℕ
  pub queued_bytes : ℕ
  pub bytes_in_flight : ℕ
  pub reassembly_bytes : ℕ
  pub reassembly_count : ℕ
  pub reassembly_parts : ℕ
  pub cwnd : ℕ
  pub ssthresh : ℕ
  pub rto : ℕ
  pub srtt : ℕ
  pub rttvar : ℕ
  pub have_rtt : Bool
  pub prefer_ack : Bool

unfoldable pub new_transport : Transport
new_transport = record {
  channels = [];
  outbound = [];
  ack_channels = [];
  ack_cursor = 0;
  data_cursor = 0;
  queued_bytes = 0;
  bytes_in_flight = 0;
  reassembly_bytes = 0;
  reassembly_count = 0;
  reassembly_parts = 0;
  cwnd = initial_cwnd;
  ssthresh = maximum_cwnd;
  rto = initial_rto;
  srtt = 0;
  rttvar = 0;
  have_rtt = false;
  prefer_ack = true;
}

-- uint64 subtraction.
abbrev pub sub64 : ℕ → ℕ → ℕ
sub64 a b = (a + u64_mod - b) % u64_mod

-- `ordered, known`: `none` is an unknown channel. The numbers are topology, fanout, member state,
-- screen state and file control, then file data.
unfoldable pub channel_ordered : ℕ → Option Bool
channel_ordered channel =
    if channel == 1 || (channel == 2 || (channel == 3 || (channel == 4 || channel == 5)))
    then some true
    else if channel == 6
    then some false
    else none

abbrev pub fresh_channel : ReliableChannel
fresh_channel = record {
  next_fragment_sequence = 0;
  received = empty_window;
  ack_dirty = false;
  next_delivered_fragment = 1;
  reassemblies = [];
}

-- `r.channels[channel]` after a nil check, or where the key is known to be there.
abbrev pub channel_at : Transport → ℕ → ReliableChannel
channel_at r channel = value_or (λ state. state) fresh_channel (lookup channel r.channels)

-- A write through the pointer that `r.channels[channel]` gave.
abbrev pub put_channel : Transport → ℕ → ReliableChannel → Transport
put_channel r channel state = record r { channels = insert channel state r.channels }

unfoldable pub add_channel : Transport → ℕ → Transport
add_channel r channel = record r {
  channels = insert channel fresh_channel r.channels;
  ack_channels = r.ack_channels ++ (channel ∷ []);
}

-- `if state == nil { state = r.addChannel(channel) }`
unfoldable pub ensure_channel : Transport → ℕ → Transport
unfolding add_channel
ensure_channel r channel = elim (lookup channel r.channels) [
  | none ↦ add_channel r channel
  | some _ ↦ r
]
