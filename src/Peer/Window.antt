-- ===== src/Peer/Window.antt =====
-- internal/peer/control_flow.go: the 64-packet replay window and the packet counter of a session.
-- A uint64 is a number below `2 ^ 64`; `<<` is truncated to that width.
pub mod Laws
pub mod History
pub mod Acks
use bork.Base.{
  ℕ, ◌+◌, ◌-◌, ◌*◌, ◌%◌, ◌^◌, Bool, true, false, if◌then◌else◌, ◌==◌, ◌=/=◌, ltb, leb, bit_and,
  bit_or, Result, ok, err,
}

pub record SequenceWindow : Type 0 where
  pub highest : ℕ
  pub seen : ℕ

abbrev pub empty_window : SequenceWindow
empty_window = record { highest = 0; seen = 0 }

abbrev pub u64_mod : ℕ
u64_mod = 2 ^ 64

-- `seen` once the window has moved up by `shift`, with the newest packet marked.
unfoldable pub slide : ℕ → ℕ → ℕ
slide seen shift = if leb 64 shift then 1 else bit_or (seen * 2 ^ shift % u64_mod) 1

-- The receiver is a pointer: the window comes back beside the answer.
unfoldable pub accept : SequenceWindow → ℕ → SequenceWindow × Bool
unfolding slide
accept w sequence =
    if sequence == 0
    then (w, false)
    else if ltb w.highest sequence
    then (record { highest = sequence; seen = slide w.seen (sequence - w.highest) }, true)
    else if leb 64 (w.highest - sequence)
    then (w, false)
    else if bit_and w.seen (2 ^ (w.highest - sequence)) =/= 0
    then (w, false)
    else (record w { seen = bit_or w.seen (2 ^ (w.highest - sequence)) }, true)

-- The receiver is a copy: the window stays as it was.
pub may_accept : SequenceWindow → ℕ → Bool
may_accept w sequence = (accept w sequence).1

pub record SessionPacketFlow : Type 0 where
  pub send_sequence : ℕ
  pub receive_window : SequenceWindow

pub data FlowError : Type 0 where
  sequence_exhausted : FlowError

pub next_send_sequence : SessionPacketFlow → Result FlowError (ℕ × SessionPacketFlow)
next_send_sequence f =
    if f.send_sequence == u64_mod - 1
    then err sequence_exhausted
    else ok (f.send_sequence + 1, record f { send_sequence = f.send_sequence + 1 })

pub may_receive : SessionPacketFlow → ℕ → Bool
may_receive f sequence = may_accept f.receive_window sequence

pub commit_received : SessionPacketFlow → ℕ → SessionPacketFlow × Bool
commit_received f sequence =
    let (w, accepted) = accept f.receive_window sequence in
    (record f { receive_window = w }, accepted)
