-- ===== src/Protocol/Sealed.antt =====
-- The sealing that every session packet shares (bridge.go, control.go, reliable.go): the body is
-- encrypted in place behind the cleartext header, which is its additional data.
use bork.Base.{
  ◌+◌, ◌≡◌, sym, ap, ◌∙◌, Option, none, some, ◌++◌, All, All-drop, length, take, drop, field-append,
  true, ok, arith,
}
use bork.Base.Bytes.{Bytes, IsByte}
use bork.Protocol.Aead.{Aead, IsAead}
use bork.Protocol.Wire.{
  session_header_size, SessionHeader, parse_session_header, session_nonce, valid_pairwise_cipher,
}
use bork.Protocol.Wire.Headers.{
  IsHeader, header_bytes, length-header_bytes, take-packet, drop-packet, length-packet,
  parse_session_header-header_bytes, header_bytes-parse_session_header,
}

-- `protector.Seal(body[:0], sessionNonce(packet), body, packet[:sessionHeaderSize])` over a packet
-- that the caller has assembled; a method call on a nil interface does not happen behind the guard.
unfoldable pub seal_session : Option Aead → Bytes → Bytes
seal_session none packet = packet
seal_session (some a) packet =
    take session_header_size packet
    ++ a.seal (session_nonce packet) (drop session_header_size packet)
        (take session_header_size packet)

-- `protector.Open(body[:0], sessionNonce(packet), body, packet[:sessionHeaderSize])`
unfoldable pub open_session : Option Aead → Bytes → Option Bytes
open_session none packet = none
open_session (some a) packet =
    a.unseal (session_nonce packet) (drop session_header_size packet)
      (take session_header_size packet)

module _ (a : Aead) (h : SessionHeader) (w : IsAead a) (v : IsHeader h) where
  nonce-packet :
      (body : Bytes) → session_nonce (header_bytes h ++ body) ≡ session_nonce (header_bytes h)
  unfolding session_nonce
  nonce-packet body =
      field-append 17 12 (header_bytes h) body (omega (arith, length-header_bytes h v.id_size))

  seal_packet :
      (body : Bytes)
      → seal_session (some a) (header_bytes h ++ body)
        ≡ header_bytes h ++ a.seal (session_nonce (header_bytes h)) body (header_bytes h)
  unfolding seal_session
  seal_packet body =
      rw (take-packet h body v.id_size, drop-packet h body v.id_size, nonce-packet body)

  -- What is sealed is opened, behind the same header.
  pub open_session-seal_session :
      (body : Bytes)
      → open_session (some a) (seal_session (some a) (header_bytes h ++ body)) ≡ some body
  unfolding open_session
  open_session-seal_session body =
      let n = session_nonce (header_bytes h) in
      let sealed : Bytes = a.seal n body (header_bytes h) in
      rw
        (
          seal_packet body,
          take-packet h sealed v.id_size,
          drop-packet h sealed v.id_size,
          nonce-packet sealed,
        )
        (w.unseal-seal n body (header_bytes h))

  pub parse_session_header-seal_session :
      (body : Bytes) → parse_session_header (seal_session (some a) (header_bytes h ++ body)) ≡ ok h
  parse_session_header-seal_session body =
      rw (seal_packet body) (parse_session_header-header_bytes h _ v)

  pub length-seal_session :
      (body : Bytes)
      → length (seal_session (some a) (header_bytes h ++ body))
        ≡ session_header_size + length body + a.overhead
  length-seal_session body =
      let n = session_nonce (header_bytes h) in
      rw (seal_packet body) (
        omega (
          arith,
          length-packet h (a.seal n body (header_bytes h)) v.id_size,
          w.length-seal n body (header_bytes h),
        ))

-- A packet that opens is the sealing of its own header and text: nothing else is accepted.
pub seal_session-open_session :
    (a : Aead) (h : SessionHeader) (packet body : Bytes)
    → IsAead a
    → All IsByte packet
    → parse_session_header packet ≡ ok h
    → open_session (some a) packet ≡ some body
    → IsHeader h × (packet ≡ seal_session (some a) (header_bytes h ++ body))
unfolding open_session
seal_session-open_session a h packet body w b e o =
    let (v, split) = header_bytes-parse_session_header packet h b e in
    let tail : Bytes = drop session_header_size packet in
    let front : take session_header_size packet ≡ header_bytes h =
      ap (take session_header_size) split ∙ take-packet h tail v.id_size in
    let nonce : session_nonce packet ≡ session_nonce (header_bytes h) =
      ap session_nonce split ∙ nonce-packet a h w v tail in
    let sealed = w.seal-unseal (session_nonce packet) tail (take session_header_size packet) o in
    (
      v,
      split
          ∙ ap (λ t. header_bytes h ++ t) (sealed ∙ rw (front, nonce))
          ∙ sym (seal_packet a h w v body),
    )

pub pairwise_overhead : (a : Aead) → valid_pairwise_cipher (some a) ≡ true → a.overhead ≡ 16
unfolding valid_pairwise_cipher
pairwise_overhead a e = ground arith

pub opened_bytes :
    (a : Aead) (packet body : Bytes)
    → IsAead a
    → All IsByte packet
    → open_session (some a) packet ≡ some body
    → All IsByte body
unfolding open_session
opened_bytes a packet body w b e =
    w.unseal-IsByte _ _ _ (All-drop IsByte session_header_size packet b) e
