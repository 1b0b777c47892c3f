-- ===== src/Protocol/Aead.antt =====
-- crypto/cipher's `AEAD` as the packets use it: an interface, since the ciphers stand outside the
-- repository (golang.org/x/crypto/chacha20poly1305).
use bork.Base.{ℕ, ◌+◌, ◌≡◌, Option, some, All, length}
use bork.Base.Bytes.{Bytes, IsByte}

-- The arguments are nonce, text and additional data. `Open` answers `none` for an error.
pub record Aead : Type 0 where
  pub nonce_size : ℕ
  pub overhead : ℕ
  pub seal : Bytes → Bytes → Bytes → Bytes
  pub unseal : Bytes → Bytes → Bytes → Option Bytes

-- What the packets rely on: `Seal` adds `Overhead()` bytes, `Open` inverts it, and `Open` accepts
-- nothing but what `Seal` makes, and turns bytes into bytes.
pub record IsAead (a : Aead) : Type 0 where
  pub length-seal : (n p d : Bytes) → length (a.seal n p d) ≡ length p + a.overhead
  pub unseal-seal : (n p d : Bytes) → a.unseal n (a.seal n p d) d ≡ some p
  pub seal-unseal : (n c d : Bytes) {p : Bytes} → a.unseal n c d ≡ some p → c ≡ a.seal n p d
  pub unseal-IsByte :
      (n c d : Bytes) {p : Bytes} → All IsByte c → a.unseal n c d ≡ some p → All IsByte p
