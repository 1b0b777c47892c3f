-- ===== src/Screen/State.antt =====
-- screen_video.go: `encodeScreenState` and `decodeScreenState`.
pub mod RoundTrip
use bork.Base.{
  ℕ, Bool, if◌then◌else◌, ◌=/=◌, ◌&&◌, List, [], ◌∷◌, ◌++◌, length, get_or, take, drop, Option,
  none, some, list_eq, not, Result, ok, err, reject, or_missing, ◌>>=◌, ◌>>◌,
}
use bork.Base.Bytes.{Bytes, be_put, be_get}
use bork.Protocol.Wire.{zero16}
use bork.Screen.{
  ScreenState, ScreenError, encoding_invalid, codec_invalid, codec_not_zero, screen_state_size,
  is_active, codec_code, codec_name, validate_screen_state,
}

-- The first five bytes: zero unless the state is active.
unfoldable pub state_head : ScreenState → Bytes
state_head state =
    if is_active state
    then elim (codec_code state.codec) as (λ x. ℕ) [ none ↦ 0 | some code ↦ code ]
      ∷ (be_put 2 state.width ++ be_put 2 state.height)
    else 0 ∷ 0 ∷ 0 ∷ 0 ∷ 0 ∷ []

unfoldable pub encode_screen_state : ScreenState → Result ScreenError Bytes
encode_screen_state state = do validate_screen_state state; ok (state_head state ++ state.stream_id)

-- The codec that a payload names, once its stream id is known.
unfoldable pub read_codec : Bytes → Bytes → Result ScreenError Bytes
read_codec payload stream_id =
    if not (list_eq stream_id zero16)
    then or_missing (codec_name (get_or payload 0 0)) codec_invalid
    else (do reject (get_or payload 0 0 =/= 0) codec_not_zero; ok [])

abbrev pub state_read : Bytes → Bytes → ScreenState
state_read payload codec = record {
  revision = 0;
  stream_id = drop 5 payload;
  codec = codec;
  width = be_get (take 2 (drop 1 payload));
  height = be_get (take 2 (drop 3 payload));
}

unfoldable pub decode_screen_state : Bytes → Result ScreenError ScreenState
unfolding read_codec
decode_screen_state payload = do
  reject (length payload =/= screen_state_size) encoding_invalid
  codec ← read_codec payload (drop 5 payload)
  validate_screen_state (state_read payload codec)
  ok (state_read payload codec)
