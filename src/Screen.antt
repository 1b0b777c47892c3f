-- ===== src/Screen.antt =====
-- internal/peer/screen_video.go: the limits of a screen share and its checks. A codec is its name,
-- as bytes.
pub mod State
pub mod Fragments
pub mod Receive
mod Tests
use bork.Base.{
  ℕ, ◌+◌, ◌-◌, ◌*◌, ◌/◌, ◌%◌, Bool, true, false, not, if◌then◌else◌, ◌=/=◌, ltb, leb, ◌==◌, ◌||◌,
  ◌&&◌, List, [], ◌∷◌, length, Option, none, some, list_eq, Result, ok, err, reject, ◌>>=◌, ◌>>◌,
}
use bork.Base.Bytes.{Bytes}
use bork.Protocol.Wire.{zero16, max_room_datagram_payload}

pub data ScreenError : Type 0 where
  encoding_invalid codec_invalid codec_not_zero fields_not_zero codec_unsupported size_invalid
        timing_invalid chunk_invalid too_many_fragments total_invalid count_invalid
        length_not_canonical :
      ScreenError

-- `avc1.42E032` and `avc1.4D4032`
abbrev pub codec_h264_baseline : Bytes
codec_h264_baseline = 97 ∷ 118 ∷ 99 ∷ 49 ∷ 46 ∷ 52 ∷ 50 ∷ 69 ∷ 48 ∷ 51 ∷ 50 ∷ []

abbrev pub codec_h264_main : Bytes
codec_h264_main = 97 ∷ 118 ∷ 99 ∷ 49 ∷ 46 ∷ 52 ∷ 68 ∷ 52 ∷ 48 ∷ 51 ∷ 50 ∷ []

-- `256 << 10`
abbrev pub max_chunk_bytes : ℕ
max_chunk_bytes = 262_144

abbrev pub max_width : ℕ
max_width = 2560

abbrev pub max_height : ℕ
max_height = 1440

abbrev pub screen_state_size : ℕ
screen_state_size = 21

abbrev pub fragment_header_size : ℕ
fragment_header_size = 23

abbrev pub max_fragment_bytes : ℕ
max_fragment_bytes = max_room_datagram_payload - fragment_header_size

abbrev pub max_video_fragments : ℕ
max_video_fragments = (max_chunk_bytes + max_fragment_bytes - 1) / max_fragment_bytes

abbrev pub max_duration_micros : ℕ
max_duration_micros = 1_000_000

-- `1<<53 - 1`
abbrev pub max_timestamp : ℕ
max_timestamp = 9_007_199_254_740_991

abbrev pub flag_key_frame : ℕ
flag_key_frame = 1

pub record ScreenState : Type 0 where
  pub revision : ℕ
  pub stream_id : Bytes
  pub codec : Bytes
  pub width : ℕ
  pub height : ℕ

abbrev pub is_active : ScreenState → Bool
is_active state = not (list_eq state.stream_id zero16)

pub record VideoMetadata : Type 0 where
  pub display_width : ℕ
  pub display_height : ℕ
  pub timestamp : ℕ
  pub duration : ℕ
  pub key_frame : Bool

unfoldable pub codec_code : Bytes → Option ℕ
codec_code codec =
    if list_eq codec codec_h264_baseline
    then some 1
    else if list_eq codec codec_h264_main
    then some 2
    else none

unfoldable pub codec_name : ℕ → Option Bytes
codec_name code =
    if code == 1 then some codec_h264_baseline else if code == 2 then some codec_h264_main else none

unfoldable pub validate_size : ℕ → ℕ → Result ScreenError (Unit {0})
validate_size width height =
    reject
      (ltb width 2
        || (ltb height 2
            || (ltb max_width width
                || (ltb max_height height || (width % 2 =/= 0 || height % 2 =/= 0)))))
      size_invalid

unfoldable pub validate_config : Bytes → ℕ → ℕ → Result ScreenError (Unit {0})
unfolding validate_size
validate_config codec width height = elim (codec_code codec) [
  | none ↦ err codec_unsupported
  | some _ ↦ validate_size width height
]

unfoldable pub validate_timing : ℕ → ℕ → Result ScreenError (Unit {0})
validate_timing timestamp duration =
    reject
      (ltb max_timestamp timestamp
        || (duration == 0
            || (ltb max_duration_micros duration || ltb (max_timestamp - duration) timestamp)))
      timing_invalid

unfoldable pub validate_metadata : VideoMetadata → Result ScreenError (Unit {0})
validate_metadata m = do
  validate_size m.display_width m.display_height
  validate_timing m.timestamp m.duration

-- The first test repeats the one before it, as in the source.
unfoldable pub validate_screen_state : ScreenState → Result ScreenError (Unit {0})
unfolding validate_config
validate_screen_state state =
    if not (is_active state)
    then reject
        (not (list_eq state.stream_id zero16)
          || (not (list_eq state.codec []) || (state.width =/= 0 || state.height =/= 0)))
        fields_not_zero
    else validate_config state.codec state.width state.height

unfoldable pub metadata_matches_state : VideoMetadata → ScreenState → Bool
metadata_matches_state m state =
    is_active state && (leb m.display_width state.width && leb m.display_height state.height)
