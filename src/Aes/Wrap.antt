-- ===== src/Aes/Wrap.antt =====
-- The wrapped AES_encrypt and AES_decrypt of src/aes_simd.c as a pair.
use openssl_wasm.Common.{ℕ, ◌≤◌, ◌<◌, ◌≡◌, ap, ◌∙◌, true, false, inl, inr, Bool-cases, arith}
use openssl_wasm.Aes.Vector.{V128, IsBytes}
use openssl_wasm.Aes.Block.{
  AesKey, simd_rounds, aes_encrypt_simd, aes_decrypt_simd, wrap_aes_encrypt, wrap_aes_decrypt,
}
use openssl_wasm.Aes.Inverse.{IsInverseKey, aes_decrypt_simd-encrypt}

simd_rounds-pos : (n : ℕ) → simd_rounds n ≡ true → 1 ≤ n
simd_rounds-pos n h = ground arith

module _ (real : V128 → AesKey → V128) (input : V128) (key : AesKey) where
  wrap_encrypt_simd :
      simd_rounds key.rounds ≡ true → wrap_aes_encrypt real input key ≡ aes_encrypt_simd input key
  unfolding wrap_aes_encrypt
  wrap_encrypt_simd h = rw h

  wrap_encrypt_real :
      simd_rounds key.rounds ≡ false → wrap_aes_encrypt real input key ≡ real input key
  unfolding wrap_aes_encrypt
  wrap_encrypt_real h = rw h

module _ (real : V128 → AesKey → V128) (input : V128) (key : AesKey) where
  wrap_decrypt_simd :
      simd_rounds key.rounds ≡ true → wrap_aes_decrypt real input key ≡ aes_decrypt_simd input key
  unfolding wrap_aes_decrypt
  wrap_decrypt_simd h = rw h

  wrap_decrypt_real :
      simd_rounds key.rounds ≡ false → wrap_aes_decrypt real input key ≡ real input key
  unfolding wrap_aes_decrypt
  wrap_decrypt_real h = rw h

-- AES_decrypt undoes AES_encrypt as the linker installs them, for every block of bytes and every
-- pair of keys in which the round keys are bytes and the decryption key is the inverse schedule of
-- the encryption key. For round counts other than 10, 12 and 14 the wrapped calls go to OpenSSL's
-- own functions, which are assumed to undo one another.
pub wrap_aes_decrypt-encrypt :
    (real_encrypt real_decrypt : V128 → AesKey → V128) (enc dec : AesKey) (input : V128)
    → IsInverseKey enc dec
    → ((a : ℕ) → enc.rd_key a < 256)
    → IsBytes input
    → (simd_rounds enc.rounds ≡ false → real_decrypt (real_encrypt input enc) dec ≡ input)
    → wrap_aes_decrypt real_decrypt (wrap_aes_encrypt real_encrypt input enc) dec ≡ input
wrap_aes_decrypt-encrypt real_encrypt real_decrypt enc dec input inv bytes h real =
    elim (Bool-cases (simd_rounds enc.rounds)) [
      | inl simd ↦
          wrap_decrypt_simd real_decrypt _ dec (ap simd_rounds inv.same_rounds ∙ simd)
          ∙ ap (λ t. aes_decrypt_simd t dec) (wrap_encrypt_simd real_encrypt input enc simd)
          ∙ aes_decrypt_simd-encrypt enc dec inv bytes input h (simd_rounds-pos enc.rounds simd)
      | inr other ↦
          wrap_decrypt_real real_decrypt _ dec (ap simd_rounds inv.same_rounds ∙ other)
          ∙ ap (λ t. real_decrypt t dec) (wrap_encrypt_real real_encrypt input enc other)
          ∙ real other
    ]
