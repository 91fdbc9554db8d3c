-- ===== src/Protocol/Crypto.antt =====
-- The cryptography of Go's standard library that the program calls: `sha256.Sum256` and
-- `ed25519.Sign`, `ed25519.Verify` and `PrivateKey.Public`. They are parameters.
use rtc_bridge.Prelude.{Bytes, IsBytes, Bool, true, ◌≡◌, length, ℕ}

pub record Crypto : Type 0 where
  pub sum256 : Bytes → Bytes
  pub public : Bytes → Bytes
  pub sign : Bytes → Bytes → Bytes
  pub verify : Bytes → Bytes → Bytes → Bool

-- `ed25519.PublicKeySize` and `ed25519.PrivateKeySize`.
abbrev pub public_key_size : ℕ
public_key_size = 32

abbrev pub private_key_size : ℕ
private_key_size = 64

-- What the packages document: a digest is an array of 32 bytes.
pub record IsDigest (c : Crypto) : Type 0 where
  pub length-sum256 : (b : Bytes) → length (c.sum256 b) ≡ 32
  pub sum256-IsBytes : (b : Bytes) → IsBytes (c.sum256 b)

-- A key pair as `ed25519.GenerateKey` makes it: the public key has its size, and accepts what the
-- private key signs.
pub record IsKey (c : Crypto) (priv : Bytes) : Type 0 where
  pub length-public : length (c.public priv) ≡ 32
  pub verify-sign : (m : Bytes) → c.verify (c.public priv) m (c.sign priv m) ≡ true
