-- ===== src/Screen/Receive/Accept.antt =====
-- screen_video.go: `acceptScreenVideoFragment`.
use bork.Base.{
  ℕ, zero, suc, ◌+◌, ◌-◌, Bool, true, false, not, if◌then◌else◌, ◌=/=◌, ◌==◌, ltb, leb, ◌||◌, ◌&&◌,
  [], ◌++◌, length, Option, none, some,
}
use bork.Base.Bytes.{Bytes}
use bork.Base.Map.{Map, lookup, insert, value_or}
use bork.Screen.{VideoMetadata}
use bork.Screen.Fragments.{DecodedFragment}
use bork.Screen.Receive.{
  VideoAssembly, ReceiveState, CompletedChunk, Receivers, state_at, put_state, receive_state,
  remove_chunk, remove_where, is_over, make_room,
}

abbrev pub same_flag : Bool → Bool → Bool
same_flag a b = if a then b else not b

-- `==` on two `screenVideoMetadata`
unfoldable pub same_metadata : VideoMetadata → VideoMetadata → Bool
same_metadata a b =
    a.display_width == b.display_width
    && (a.display_height == b.display_height
        && (a.timestamp == b.timestamp
            && (a.duration == b.duration && same_flag a.key_frame b.key_frame)))

-- The first test: the chunk has been delivered, or is two behind the newest.
abbrev pub is_stale : ReceiveState → ℕ → Bool
is_stale s chunk_id =
    leb chunk_id s.delivered_chunk_id
    || (ltb chunk_id s.newest_chunk_id && ltb 1 (s.newest_chunk_id - chunk_id))

unfoldable pub note_newest : Receivers → ℕ → ℕ → Receivers
note_newest c key chunk_id =
    if ltb (state_at c key).newest_chunk_id chunk_id
    then remove_where (λ i. ltb i chunk_id && ltb 1 (chunk_id - i))
        (put_state c key (record (state_at c key) { newest_chunk_id = chunk_id })) key
    else c

abbrev pub new_video_assembly : ℕ → DecodedFragment → ℕ → VideoAssembly
new_video_assembly chunk_id f now = record {
  chunk_id = chunk_id;
  metadata = f.metadata;
  fragment_count = f.count;
  total_size = f.total_size;
  fragments = [];
  video_bytes = 0;
  retained_bytes = 0;
  started_at = now;
}

abbrev pub put_assembly : Receivers → ℕ → ℕ → VideoAssembly → Receivers
put_assembly c key chunk_id a =
    put_state c key
      (record (state_at c key) { assemblies = insert chunk_id a (state_at c key).assemblies })

unfoldable pub ensure_assembly : Receivers → ℕ → ℕ → DecodedFragment → ℕ → Receivers
ensure_assembly c key chunk_id f now = elim (lookup chunk_id (state_at c key).assemblies) [
  | none ↦ put_assembly c key chunk_id (new_video_assembly chunk_id f now)
  | some a ↦ c
]

-- The assembly is of another chunk than the fragment.
unfoldable pub is_other : VideoAssembly → DecodedFragment → Bool
unfolding same_metadata
is_other a f =
    a.fragment_count =/= f.count
    || (a.total_size =/= f.total_size || not (same_metadata a.metadata f.metadata))

-- The assembly with the fragment in it.
abbrev pub grown_video : VideoAssembly → DecodedFragment → VideoAssembly
grown_video a f = record a {
  fragments = insert f.index f.bytes a.fragments;
  video_bytes = a.video_bytes + length f.bytes;
  retained_bytes = a.retained_bytes + length f.bytes;
}

-- The loop that joins the parts, with `rounds` left; a missing part is empty.
unfoldable pub parts_from : ℕ → ℕ → Map Bytes → Bytes
parts_from zero index fragments = []
parts_from (suc rounds) index fragments =
    value_or (λ b. b) [] (lookup index fragments) ++ parts_from rounds (index + 1) fragments

unfoldable pub complete : Receivers → ℕ → ℕ → VideoAssembly → Receivers × Option CompletedChunk
unfolding parts_from
complete c key chunk_id a =
    let bytes = parts_from a.fragment_count 0 a.fragments in
    let delivered = put_state c key (record (state_at c key) { delivered_chunk_id = chunk_id }) in
    (
      remove_where (λ i. leb i chunk_id) delivered key,
      if length bytes =/= a.total_size
          then none
          else some (record { chunk_id = a.chunk_id; metadata = a.metadata; bytes = bytes }),
    )

-- The writes for a fragment that is kept.
unfoldable pub keep_fragment :
    Receivers → ℕ → ℕ → VideoAssembly → DecodedFragment → Receivers × Option CompletedChunk
unfolding complete
keep_fragment c key chunk_id a f =
    let c' = record (put_assembly c key chunk_id (grown_video a f)) {
      retained_bytes = c.retained_bytes + length f.bytes;
    } in
    if length (grown_video a f).fragments =/= a.fragment_count
    then (c', none)
    else complete c' key chunk_id (grown_video a f)

-- What follows the look-up of the assembly. `len(bytes) > totalSize - videoBytes` is on Go's
-- signed numbers.
unfoldable pub admit :
    Receivers → ℕ → ℕ → VideoAssembly → DecodedFragment → ℕ → Receivers × Option CompletedChunk
unfolding keep_fragment is_other
admit c key chunk_id a f now =
    if is_over now a || is_other a f
    then (remove_chunk c key chunk_id, none)
    else if value_or (λ b. true) false (lookup f.index a.fragments)
    then (c, none)
    else if ltb f.total_size (a.video_bytes + length f.bytes)
    then (remove_chunk c key chunk_id, none)
    else (let (c', room) = make_room c key chunk_id (length f.bytes) in
        if room && value_or (λ x. true) false (lookup chunk_id (state_at c' key).assemblies)
        then keep_fragment c' key chunk_id a f
        else (c', none))

unfoldable pub accept_fragment :
    Receivers → ℕ → ℕ → DecodedFragment → ℕ → Receivers × Option CompletedChunk
unfolding note_newest ensure_assembly admit
accept_fragment c key chunk_id f now =
    let c1 = receive_state c key in
    if is_stale (state_at c1 key) chunk_id
    then (c1, none)
    else (let c2 = ensure_assembly (note_newest c1 key chunk_id) key chunk_id f now in
        elim (lookup chunk_id (state_at c2 key).assemblies) [
          | none ↦ (c2, none)
          | some a ↦ admit c2 key chunk_id a f now
        ])
