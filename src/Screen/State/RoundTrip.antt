-- ===== src/Screen/State/RoundTrip.antt =====
-- A screen state that is written is read back, and one that is read is what would be written.
use bork.Base.{
  ℕ, ◌+◌, ◌^◌, ◌≡◌, ◌<◌, refl, sym, ap, subst, ◌∙◌, inl, inr, true, false, ◌==◌, [], ◌∷◌, ◌++◌, All,
  length, drop, get_or, some, Bool-cases, Option-cases, Result-cases, list_eq, list_eq→eq, ok,
  arith,
}
use bork.Base.Bytes.{Bytes, IsByte, be_put, be_get-be_put, be_put-be_get}
use bork.Protocol.Wire.{zero16}
use bork.Screen.{
  ScreenState, codec_h264_baseline, codec_h264_main, is_active, codec_code, codec_name,
  validate_screen_state, validate_config,
}
use bork.Screen.State.{state_head, encode_screen_state, decode_screen_state, read_codec, state_read}

-- The two tables of codecs are inverse.
codec_name-code :
    (codec : Bytes) (code : ℕ) → codec_code codec ≡ some code → codec_name code ≡ some codec
unfolding codec_code codec_name
codec_name-code codec code e = elim (Bool-cases (list_eq codec codec_h264_baseline)) [
  | inl base ↦ ground (arith, base, list_eq→eq codec codec_h264_baseline base)
  | inr other ↦ elim (Bool-cases (list_eq codec codec_h264_main)) [
    | inl main ↦ ground (arith, other, main, list_eq→eq codec codec_h264_main main)
    | inr neither ↦ absurd (ground (arith, other, neither))
  ]
]

codec_code-name :
    (codec : Bytes) (code : ℕ) → codec_name code ≡ some codec → codec_code codec ≡ some code
unfolding codec_code codec_name list_eq
codec_code-name codec code e = elim (Bool-cases (code == 1)) [
  | inl one ↦
      let same : codec_h264_baseline ≡ codec = ground (arith, one) in
      subst (λ c. codec_code c ≡ some code) same (unfold list_eq in ground (arith, one))
  | inr other ↦ elim (Bool-cases (code == 2)) [
    | inl two ↦
        let same : codec_h264_main ≡ codec = ground (arith, other, two) in
        subst (λ c. codec_code c ≡ some code) same (unfold list_eq in ground (arith, two))
    | inr neither ↦ absurd (ground (arith, other, neither))
  ]
]

-- What the checks of an active state leave, and of one that is not.
active_code :
    (state : ScreenState)
    → validate_screen_state state ≡ ok tt
    → is_active state ≡ true
    → (code : ℕ) × (codec_code state.codec ≡ some code)
unfolding validate_screen_state validate_config
active_code state e a = elim (Option-cases (codec_code state.codec)) [
  | inl unknown ↦ absurd (ground (arith, unknown))
  | inr known ↦ known
]

inactive_zero :
    (state : ScreenState)
    → validate_screen_state state ≡ ok tt
    → is_active state ≡ false
    → (state.stream_id ≡ zero16) × (state.codec ≡ []) × (state.width ≡ 0) × (state.height ≡ 0)
unfolding validate_screen_state
inactive_zero state e a = (
  list_eq→eq state.stream_id zero16 (ground arith),
  list_eq→eq state.codec [] (ground arith),
  ground arith,
  ground arith,
)

encode_ok :
    (state : ScreenState) {payload : Bytes}
    → encode_screen_state state ≡ ok payload
    → (validate_screen_state state ≡ ok tt) × (payload ≡ state_head state ++ state.stream_id)
unfolding encode_screen_state
encode_ok state e = elim (Result-cases (validate_screen_state state)) [
  | inl (done, valid) ↦ (valid, ground (arith, valid))
  | inr (_, refused) ↦ absurd (ground (arith, refused))
]

-- The values that the fields of a state have in Go.
pub record IsState (state : ScreenState) : Type 0 where
  pub id_size : length state.stream_id ≡ 16
  pub width_fits : state.width < 2 ^ 16
  pub height_fits : state.height < 2 ^ 16

-- The five bytes of a head, before an id.
abbrev headed : ℕ → ℕ → ℕ → Bytes → Bytes
headed code width height id = (code ∷ (be_put 2 width ++ be_put 2 height)) ++ id

length-headed :
    (code width height : ℕ) (id : Bytes) → length (headed code width height id) ≡ 5 + length id
unfolding be_put
length-headed code width height id = omega arith

state_read-headed :
    (code : ℕ) (state : ScreenState)
    → IsState state
    → state_read (headed code state.width state.height state.stream_id) state.codec
      ≡ record state { revision = 0 }
unfolding be_put
state_read-headed code state v =
    rw (be_get-be_put 2 state.width v.width_fits, be_get-be_put 2 state.height v.height_fits) refl

validate-revision :
    (state : ScreenState)
    → validate_screen_state state ≡ ok tt
    → validate_screen_state (record state { revision = 0 }) ≡ ok tt
unfolding validate_screen_state
validate-revision state e = e

decode_steps :
    (payload codec : Bytes)
    → length payload ≡ 21
    → read_codec payload (drop 5 payload) ≡ ok codec
    → validate_screen_state (state_read payload codec) ≡ ok tt
    → decode_screen_state payload ≡ ok (state_read payload codec)
unfolding decode_screen_state
decode_steps payload codec size named valid = ground (arith, size, named, valid)

-- Reading what has been written, once the codec byte has been read.
decode-headed :
    (code : ℕ) (state : ScreenState)
    → IsState state
    → validate_screen_state state ≡ ok tt
    → read_codec (headed code state.width state.height state.stream_id) state.stream_id
      ≡ ok state.codec
    → decode_screen_state (headed code state.width state.height state.stream_id)
      ≡ ok (record state { revision = 0 })
decode-headed code state v e named =
    let payload = headed code state.width state.height state.stream_id in
    let same = state_read-headed code state v in
    let rest : drop 5 payload ≡ state.stream_id = unfold be_put in refl in
    decode_steps payload state.codec
      (omega (arith, length-headed code state.width state.height state.stream_id, v.id_size))
      (subst (λ t. read_codec payload t ≡ ok state.codec) (sym rest) named)
      (subst (λ t. validate_screen_state t ≡ ok tt) (sym same) (validate-revision state e))
    ∙ ap ok same

-- Where the stream id is 16 bytes and the sizes fit 16 bits, what `encode_screen_state` writes is 21
-- bytes, which `decode_screen_state` reads back, with revision 0 since the revision is not written.
pub decode-encode_screen_state :
    (state : ScreenState) {payload : Bytes}
    → IsState state
    → encode_screen_state state ≡ ok payload
    → (decode_screen_state payload ≡ ok (record state { revision = 0 })) × (length payload ≡ 21)
decode-encode_screen_state state {payload} v e =
    let (valid, written) = encode_ok state e in
    let done : (code : ℕ)
        → state_head state ++ state.stream_id ≡ headed code state.width state.height state.stream_id
        → read_codec (headed code state.width state.height state.stream_id) state.stream_id
          ≡ ok state.codec
        → (decode_screen_state payload ≡ ok (record state { revision = 0 }))
          × (length payload ≡ 21) =
      λ code shape named. (
        ap decode_screen_state (written ∙ shape) ∙ decode-headed code state v valid named,
        ap length (written ∙ shape)
            ∙ omega (arith, length-headed code state.width state.height state.stream_id, v.id_size),
      ) in
    elim (Bool-cases (is_active state)) [
      | inl active ↦
          let (code, known) = active_code state valid active in
          done code (unfold state_head in ground (arith, active, known))
            (unfold read_codec in ground (arith, active, codec_name-code state.codec code known))
      | inr idle ↦
          let (_, no_codec, no_width, no_height) = inactive_zero state valid idle in
          done 0 (unfold state_head be_put in ground (arith, idle, no_width, no_height))
            (unfold read_codec in ground (arith, idle, no_codec))
    ]

-- The bytes of a payload from the fields that are read in it.
rebuilt :
    (payload codec : Bytes)
    → length payload ≡ 21
    → All IsByte payload
    → let s = state_read payload codec in
      payload ≡ headed (get_or payload 0 0) s.width s.height s.stream_id
rebuilt [] codec n h = absurd (omega arith)
rebuilt (a ∷ []) codec n h = absurd (omega arith)
rebuilt (a ∷ (b ∷ [])) codec n h = absurd (omega arith)
rebuilt (a ∷ (b ∷ (c ∷ []))) codec n h = absurd (omega arith)
rebuilt (a ∷ (b ∷ (c ∷ (d ∷ [])))) codec n h = absurd (omega arith)
rebuilt (a ∷ (b ∷ (c ∷ (d ∷ (e ∷ rest))))) codec n h =
    rw
      (
        be_put-be_get 2 (b ∷ (c ∷ [])) refl (h.1.0, (h.1.1.0, tt)),
        be_put-be_get 2 (d ∷ (e ∷ [])) refl (h.1.1.1.0, (h.1.1.1.1.0, tt)),
      )
      refl

-- What `decodeScreenState` has established when it answers.
decode_ok :
    (payload : Bytes) {state : ScreenState}
    → decode_screen_state payload ≡ ok state
    → (codec : Bytes) × (length payload ≡ 21)
      × (read_codec payload (drop 5 payload) ≡ ok codec)
      × (validate_screen_state (state_read payload codec) ≡ ok tt)
      × (state ≡ state_read payload codec)
unfolding decode_screen_state
decode_ok payload e = elim (Result-cases (read_codec payload (drop 5 payload))) [
  | inr (_, refused) ↦ absurd (ground (arith, refused))
  | inl (codec, named) ↦ elim (Result-cases (validate_screen_state (state_read payload codec))) [
    | inr (_, refused) ↦ absurd (ground (arith, named, refused))
    | inl (done, valid) ↦ (codec, ground (arith, named), named, valid, ground (arith, named, valid))
  ]
]

encode_steps :
    (state : ScreenState)
    → validate_screen_state state ≡ ok tt
    → encode_screen_state state ≡ ok (state_head state ++ state.stream_id)
unfolding encode_screen_state
encode_steps state valid = ground (arith, valid)

-- A payload of bytes that `decode_screen_state` reads is what `encode_screen_state` writes for the state
-- read.
pub encode-decode_screen_state :
    (payload : Bytes) {state : ScreenState}
    → All IsByte payload
    → decode_screen_state payload ≡ ok state
    → encode_screen_state state ≡ ok payload
encode-decode_screen_state payload {state} b e =
    let (codec, size, named, valid, same) = decode_ok payload e in
    let s : ScreenState = state_read payload codec in
    let whole = rebuilt payload codec size b in
    let shaped : headed (get_or payload 0 0) s.width s.height s.stream_id
        ≡ state_head s ++ s.stream_id =
      elim (Bool-cases (is_active s)) [
        | inl active ↦
            let known =
              codec_code-name codec (get_or payload 0 0)
                (unfold read_codec in ground (arith, named, active)) in
            unfold state_head in ground (arith, active, known)
        | inr idle ↦
            let (_, _, no_width, no_height) = inactive_zero s valid idle in
            let no_code : get_or payload 0 0 ≡ 0 =
              unfold read_codec in ground (arith, named, idle) in
            unfold state_head be_put in ground (arith, idle, no_width, no_height, no_code)
      ] in
    ap encode_screen_state same ∙ (encode_steps s valid ∙ ap ok (sym (whole ∙ shaped)))
