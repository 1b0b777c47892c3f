-- ===== src/Screen/Tests.antt =====
-- The theorems on screen sharing at concrete states and chunks.
use bork.Base.{◌≡◌, ◌≤◌, ◌<◌, refl, true, List, [], ◌∷◌, map, All, length, some, ok, list_eq, arith}
use bork.Base.Bytes.{Bytes, be_put, be_get}
use bork.Base.Map.{lookup, insert, delete}
use bork.Screen.{
  ScreenState, VideoMetadata, codec_h264_main, codec_code, codec_name, validate_size,
  validate_config, validate_screen_state, validate_timing, validate_metadata,
}
use bork.Screen.State.{encode_screen_state, decode_screen_state, state_head, read_codec}
use bork.Screen.State.RoundTrip.{decode-encode_screen_state, encode-decode_screen_state}
use bork.Screen.Fragments.{
  DecodedFragment, fragments_for, encode_fragments, encode_from, fragment_header, decode_fragment,
}
use bork.Screen.Fragments.RoundTrip.{decode-encode_fragments, joined_bytes, IsCut, IsPart}
use bork.Screen.Receive.{
  CompletedChunk, no_receivers, receive_state, remove_chunk, remove_chunks, remove_where,
  note_assembly, oldest_of, oldest_in, evict, make_room, drop_stream, remove_assemblies,
}
use bork.Screen.Receive.Accept.{
  accept_fragment, note_newest, ensure_assembly, same_metadata, is_other, admit, keep_fragment,
  complete, parts_from,
}
use bork.Screen.Receive.Run.{Action, arrives, drops, act, run}
use bork.Screen.Receive.Whole.{accept_fragment_whole}
use bork.Screen.Receive.Held.{held_bytes, IsRetained, run-IsRetained}

abbrev stream : Bytes
stream = 1 ∷ 2 ∷ 3 ∷ 4 ∷ 5 ∷ 6 ∷ 7 ∷ 8 ∷ 9 ∷ 10 ∷ 11 ∷ 12 ∷ 13 ∷ 14 ∷ 15 ∷ 16 ∷ []

abbrev shared : ScreenState
shared = record {
  revision = 4;
  stream_id = stream;
  codec = codec_h264_main;
  width = 1280;
  height = 720;
}

abbrev shared_bytes : Bytes
shared_bytes = 2 ∷ 5 ∷ 0 ∷ 2 ∷ 208 ∷ stream

shared-encoded : encode_screen_state shared ≡ ok shared_bytes
unfolding encode_screen_state validate_screen_state validate_config codec_code validate_size
    state_head list_eq be_put
shared-encoded = refl

decode-encode_screen_state_example :
    (decode_screen_state shared_bytes ≡ ok (record shared { revision = 0 }))
    × (length shared_bytes ≡ 21)
decode-encode_screen_state_example =
    decode-encode_screen_state shared
      (record { id_size = refl; width_fits = omega arith; height_fits = omega arith })
      shared-encoded

shared-decoded : decode_screen_state shared_bytes ≡ ok (record shared { revision = 0 })
unfolding decode_screen_state read_codec codec_name validate_screen_state validate_config codec_code
    validate_size list_eq be_get
shared-decoded = refl

shared_bytes-IsByte : All (λ b. b < 256) shared_bytes
shared_bytes-IsByte = ground arith

encode-decode_screen_state_example :
    encode_screen_state (record shared { revision = 0 }) ≡ ok shared_bytes
encode-decode_screen_state_example =
    encode-decode_screen_state shared_bytes shared_bytes-IsByte shared-decoded

abbrev frame : VideoMetadata
frame = record {
  display_width = 640;
  display_height = 480;
  timestamp = 1000;
  duration = 33;
  key_frame = true;
}

abbrev picture : Bytes
picture = 7 ∷ 8 ∷ 9 ∷ []

abbrev picture_fragments : List Bytes
picture_fragments =
    (1 ∷ 0 ∷ 0 ∷ 0 ∷ 0 ∷ 0 ∷ 0 ∷ 0 ∷ 0 ∷ 3 ∷ 232 ∷ 0 ∷ 0 ∷ 0 ∷ 33 ∷ 0 ∷ 0 ∷ 0 ∷ 3 ∷ 2 ∷ 128 ∷ 1
      ∷ 224 ∷ picture)
    ∷ []

picture-encoded : encode_fragments frame picture ≡ ok picture_fragments
unfolding encode_fragments validate_metadata validate_size validate_timing encode_from
    fragment_header be_put
picture-encoded = refl

decode-encode_fragments_example :
    (fs : List DecodedFragment) × (map decode_fragment picture_fragments ≡ map ok fs)
    × (joined_bytes fs ≡ picture)
    × IsCut frame picture 0 fs
    × (fragments_for (length picture) ≤ 233)
decode-encode_fragments_example = decode-encode_fragments frame picture picture-encoded

-- A chunk of one fragment, after another stream has been dropped.
abbrev part : DecodedFragment
part = record { metadata = frame; index = 0; count = 1; total_size = 3; bytes = picture }

part-IsPart : IsPart frame picture part
part-IsPart = record { metadata = refl; count = refl; total = refl; bytes = refl }

abbrev before : List Action
before = arrives 5 1 part 100 ∷ drops 5 ∷ arrives 6 1 part 150 ∷ []

abbrev whole_picture : CompletedChunk
whole_picture = record { chunk_id = 2; metadata = frame; bytes = picture }

part-completes : (accept_fragment (run no_receivers before) 6 2 part 200).1 ≡ some whole_picture
unfolding accept_fragment run act note_newest ensure_assembly is_other same_metadata admit
    keep_fragment complete parts_from receive_state remove_chunk remove_chunks remove_where
    note_assembly oldest_of oldest_in evict make_room drop_stream remove_assemblies lookup insert
    delete
part-completes = refl

accept_fragment_whole_example :
    (whole_picture.chunk_id ≡ 2)
    × (whole_picture.metadata ≡ frame)
    × (whole_picture.bytes ≡ picture)
accept_fragment_whole_example =
    accept_fragment_whole frame picture 6 2 before part 200
      ((λ k i. part-IsPart), (tt, ((λ k i. part-IsPart), tt))) part-IsPart part-completes

-- Two of the three fragments of a chunk, one of them twice.
abbrev first_of_three : DecodedFragment
first_of_three = record part { count = 3; total_size = 9 }

abbrev second_of_three : DecodedFragment
second_of_three = record first_of_three { index = 1 }

abbrev underway : List Action
underway =
    arrives 6 1 first_of_three 100
    ∷ arrives 6 1 second_of_three 110
    ∷ arrives 6 1 first_of_three 120
    ∷ []

underway_held : held_bytes (run no_receivers underway) ≡ 6
unfolding accept_fragment run act note_newest ensure_assembly is_other same_metadata admit
    keep_fragment complete parts_from receive_state remove_chunk remove_chunks remove_where
    note_assembly oldest_of oldest_in evict make_room drop_stream remove_assemblies lookup insert
    delete
underway_held = refl

run-IsRetained_example : IsRetained (run no_receivers underway)
run-IsRetained_example = run-IsRetained underway
