-- ===== src/Screen/Receive/Forward.antt =====
-- screen_video.go: the packets of a stream that wait to be forwarded.
use bork.Base.{ℕ, if◌then◌else◌, List, [], ◌∷◌, ◌++◌, length, ◌==◌, Option, none, some}
use bork.Base.Bytes.{Bytes}
use bork.Base.Map.{lookup}
use bork.Screen.Receive.{Receivers, state_at, put_state, receive_state}

-- `queueScreenVideoForward`
unfoldable pub queue_forward : Receivers → ℕ → Bytes → ℕ → Receivers
queue_forward c key packet deadline =
    let c' = receive_state c key in
    let s = state_at c' key in
    put_state c' key (record s {
      forward_packets = s.forward_packets ++ (packet ∷ []);
      forward_deadline = if length s.forward_packets == 0 then deadline else s.forward_deadline;
    })

-- What `sendRealtimePacketsToPeers` is given.
pub record Forwarding : Type 0 where
  pub packets : List Bytes
  pub listeners : List ℕ
  pub deadline : ℕ

-- `flushScreenVideoForward`; the listeners are the sender's inbound fanout, when its session is one
-- to forward for.
unfoldable pub flush_forward : Option (List ℕ) → Receivers → ℕ → Receivers × Option Forwarding
flush_forward listeners c key = elim (lookup key c.states) [
  | none ↦ (c, none)
  | some s ↦ if length s.forward_packets == 0 then (c, none) else (
    put_state c key (record s { forward_packets = []; forward_deadline = 0 }),
    elim listeners [
      | none ↦ none
      | some peers ↦
          some (record {
            packets = s.forward_packets;
            listeners = peers;
            deadline = s.forward_deadline;
          })
    ],
  )
]
