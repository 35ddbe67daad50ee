-- ===== src/Ccm.antt =====
-- The authenticated encryption that src/bthome_beacon.c calls: aes_ccm_encrypt_and_tag with no
-- additional data and a tag of four bytes, and the decryption of a receiver.
use b80_key.Prelude.{ℕ, ◌≡◌, List, Option, some, length}

pub record Ccm : Type 0 where
  -- aes_ccm_encrypt_and_tag: key, nonce, input; output and tag
  pub encrypt_and_tag : List ℕ → List ℕ → List ℕ → List ℕ × List ℕ
  -- aes_ccm_auth_decrypt: key, nonce, input, tag
  pub auth_decrypt : List ℕ → List ℕ → List ℕ → List ℕ → Option (List ℕ)
  pub length_cipher :
      (key nonce input : List ℕ) → length (encrypt_and_tag key nonce input).0 ≡ length input
  pub length_tag : (key nonce input : List ℕ) → length (encrypt_and_tag key nonce input).1 ≡ 4
  pub decrypt_encrypt :
      (key nonce input : List ℕ)
      → let (output, tag) = encrypt_and_tag key nonce input in
        auth_decrypt key nonce output tag ≡ some input
