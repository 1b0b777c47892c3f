-- ===== src/Screen/Receive.antt =====
-- screen_video.go: the video chunks that a peer reassembles. A stream key is a number, and a
-- `*screenVideoAssembly` is its key and chunk id. A loop over a Go map runs in the order of the list.
-- Times are nanoseconds.
pub mod Accept
pub mod Forward
pub mod Holds
pub mod Answers
pub mod Run
pub mod Whole
pub mod Retained
pub mod Room
pub mod Counted
pub mod Held
use bork.Base.{
  ℕ, zero, suc, ◌+◌, ◌-◌, ◌*◌, Bool, true, false, not, if◌then◌else◌, ◌=/=◌, ◌==◌, ltb, leb, ◌||◌,
  ◌&&◌, List, [], ◌∷◌, ◌++◌, length, map, total, keep, Option, none, some,
}
use bork.Base.Bytes.{Bytes}
use bork.Base.Map.{Map, lookup, insert, delete, value_or}
use bork.Screen.{VideoMetadata}
use bork.Screen.Fragments.{DecodedFragment}

-- `750 * time.Millisecond`
abbrev pub chunk_ttl : ℕ
chunk_ttl = 750_000_000

-- `4 << 20`
abbrev pub max_retained_bytes : ℕ
max_retained_bytes = 4_194_304

pub record VideoAssembly : Type 0 where
  pub chunk_id : ℕ
  pub metadata : VideoMetadata
  pub fragment_count : ℕ
  pub total_size : ℕ
  pub fragments : Map Bytes
  pub video_bytes : ℕ
  pub retained_bytes : ℕ
  pub started_at : ℕ

pub record ReceiveState : Type 0 where
  pub newest_chunk_id : ℕ
  pub delivered_chunk_id : ℕ
  pub assemblies : Map VideoAssembly
  pub forward_packets : List Bytes
  pub forward_deadline : ℕ

pub record CompletedChunk : Type 0 where
  pub chunk_id : ℕ
  pub metadata : VideoMetadata
  pub bytes : Bytes

-- The fields of `Client` that reassembly writes.
pub record Receivers : Type 0 where
  pub states : Map ReceiveState
  pub retained_bytes : ℕ

abbrev pub new_state : ReceiveState
new_state = record {
  newest_chunk_id = 0;
  delivered_chunk_id = 0;
  assemblies = [];
  forward_packets = [];
  forward_deadline = 0;
}

abbrev pub no_receivers : Receivers
no_receivers = record { states = []; retained_bytes = 0 }

abbrev pub state_at : Receivers → ℕ → ReceiveState
state_at c key = value_or (λ s. s) new_state (lookup key c.states)

abbrev pub put_state : Receivers → ℕ → ReceiveState → Receivers
put_state c key s = record c { states = insert key s c.states }

unfoldable pub receive_state : Receivers → ℕ → Receivers
receive_state c key = elim (lookup key c.states) [ none ↦ put_state c key new_state | some s ↦ c ]

unfoldable pub remove_chunk : Receivers → ℕ → ℕ → Receivers
remove_chunk c key chunk_id =
    let s = state_at c key in
    elim (lookup chunk_id s.assemblies) [
      | none ↦ c
      | some a ↦ record (put_state c key (record s { assemblies = delete chunk_id s.assemblies })) {
        retained_bytes = c.retained_bytes - a.retained_bytes;
      }
    ]

-- A loop that removes chunks.
unfoldable pub remove_chunks : Receivers → ℕ → List ℕ → Receivers
unfolding remove_chunk
remove_chunks c key [] = c
remove_chunks c key (i ∷ is) = remove_chunks (remove_chunk c key i) key is

abbrev pub chunk_ids : ReceiveState → List ℕ
chunk_ids s = map (λ e. e.0) s.assemblies

-- The loops that remove some of the chunks of a stream.
unfoldable pub remove_where : (ℕ → Bool) → Receivers → ℕ → Receivers
unfolding remove_chunks
remove_where test c key = remove_chunks c key (keep test (chunk_ids (state_at c key)))

-- `removeScreenVideoAssembly`
unfoldable pub remove_assemblies : Receivers → ℕ → Receivers
unfolding remove_where
remove_assemblies c key = elim (lookup key c.states) [
  | none ↦ c
  | some s ↦
      let c' = remove_where (λ i. true) c key in
      put_state c' key (record (state_at c' key) { assemblies = [] })
]

-- A stream is emptied and forgotten.
unfoldable pub drop_stream : Receivers → ℕ → Receivers
unfolding remove_assemblies
drop_stream c key = let c' = remove_assemblies c key in record c' { states = delete key c'.states }

unfoldable pub remove_streams : (ℕ → Bool) → Receivers → List ℕ → Receivers
unfolding drop_stream
remove_streams of_sender c [] = c
remove_streams of_sender c (key ∷ keys) =
    remove_streams of_sender (if of_sender key then drop_stream c key else c) keys

-- `removeScreenVideoAssembliesForSender`; the argument tells the sender's keys.
unfoldable pub remove_for_sender : (ℕ → Bool) → Receivers → Receivers
unfolding remove_streams
remove_for_sender of_sender c = remove_streams of_sender c (map (λ e. e.0) c.states)

abbrev pub is_over : ℕ → VideoAssembly → Bool
is_over now a = leb (a.started_at + chunk_ttl) now

-- The chunks of a stream whose time is over.
unfoldable pub expired_ids : ℕ → Map VideoAssembly → List ℕ
expired_ids now [] = []
expired_ids now ((i, a) ∷ rest) =
    if is_over now a then i ∷ expired_ids now rest else expired_ids now rest

unfoldable pub expire_streams : ℕ → Receivers → List ℕ → Receivers
unfolding remove_chunks expired_ids
expire_streams now c [] = c
expire_streams now c (key ∷ keys) =
    expire_streams now (remove_chunks c key (expired_ids now (state_at c key).assemblies)) keys

-- `expireScreenVideoChunks`
unfoldable pub expire_chunks : ℕ → Receivers → Receivers
unfolding expire_streams
expire_chunks now c = expire_streams now c (map (λ e. e.0) c.states)

-- The variables of the search for the oldest assembly, once one is found.
pub record Oldest : Type 0 where
  pub key : ℕ
  pub chunk_id : ℕ
  pub at : ℕ

unfoldable pub note_assembly : ℕ → ℕ → ℕ → Option Oldest → ℕ × VideoAssembly → Option Oldest
note_assembly current_key current_id key best (i, a) =
    let found = some (record { key = key; chunk_id = i; at = a.started_at }) in
    if key == current_key && i == current_id
    then best
    else elim best [ none ↦ found | some b ↦ if ltb a.started_at b.at then found else some b ]

unfoldable pub oldest_of : ℕ → ℕ → ℕ → Option Oldest → Map VideoAssembly → Option Oldest
unfolding note_assembly
oldest_of current_key current_id key best [] = best
oldest_of current_key current_id key best (e ∷ es) =
    oldest_of current_key current_id key (note_assembly current_key current_id key best e) es

unfoldable pub oldest_in : ℕ → ℕ → Option Oldest → Map ReceiveState → Option Oldest
unfolding oldest_of
oldest_in current_key current_id best [] = best
oldest_in current_key current_id best ((key, s) ∷ rest) =
    oldest_in current_key current_id (oldest_of current_key current_id key best s.assemblies) rest

-- How many assemblies there are.
abbrev pub assembly_count : Receivers → ℕ
assembly_count c = total (λ e. length e.1.assemblies) c.states

-- The loop of `makeScreenVideoRetentionRoom`, with `rounds` left.
unfoldable pub evict : ℕ → Receivers → ℕ → ℕ → ℕ → Receivers × Bool
unfolding oldest_in remove_chunk
evict zero c key chunk_id cost = (c, leb cost (max_retained_bytes - c.retained_bytes))
evict (suc rounds) c key chunk_id cost = elim (oldest_in key chunk_id none c.states) [
  | none ↦ (c, leb cost (max_retained_bytes - c.retained_bytes))
  | some oldest ↦
      let rest = evict rounds (remove_chunk c oldest.key oldest.chunk_id) key chunk_id cost in
      if leb cost (max_retained_bytes - c.retained_bytes) then (c, true) else rest
]

unfoldable pub make_room : Receivers → ℕ → ℕ → ℕ → Receivers × Bool
unfolding evict
make_room c key chunk_id cost =
    if cost == 0 || ltb max_retained_bytes cost
    then (c, false)
    else evict (assembly_count c) c key chunk_id cost
