-- ===== src/Cipher/Aead.antt =====
-- `seal` and `open` of src/cipher.c.
use openssl_wasm.Common.{
  ℕ, ◌+◌, Bool, true, false, not, ◌&&◌, ◌==◌, if◌then◌else◌, none, some, List, length,
}
use openssl_wasm.Int.{to_int}
use openssl_wasm.Memory.{
  Cmd, Ptr, null, Result, ok, err, Buffer, ◌>>=◌, ◌>>◌, pure, call, call_on, xmalloc, free,
  new_object, free_object, write_at, at_least_one,
}
use openssl_wasm.Cipher.Algs.{CipherId, cipher_by_alg, alg_is_aead, is_ccm}
use openssl_wasm.Cipher.Evp.{
  Direction, encrypt, decrypt, EvpCipher, CipherError, unsupported_algorithm, bad_key_size,
  bad_iv_size, bad_tag_size, not_aead, tag_mismatch, internal, internal_error, fits_int, init_key,
}

-- aead-sealed
pub record Sealed : Type 0 where
  pub ciphertext : Buffer
  pub tag : Buffer

module _ {R : Type 0} (evp : EvpCipher) (room : ℕ → Bool) where
  -- A step that is taken only for some ciphers, with its result ignored.
  abbrev only_if : Bool → Cmd evp.Ctx R Bool → Cmd evp.Ctx R Bool
  only_if true m = m
  only_if false m = pure true

  -- The cipher and the length of the nonce: EVP_CipherInit_ex2 and EVP_CTRL_AEAD_SET_IVLEN, the
  -- second only if the first returned 1.
  abbrev set_cipher : Direction → CipherId → ℕ → Ptr → Cmd evp.Ctx R Bool
  set_cipher dir c nonce_len ctx = do
    chosen ← call_on ctx (evp.init dir (some c) none none)
    if chosen then call_on ctx (evp.set_iv_length (to_int nonce_len)) else pure false

  -- `aad->len && EVP_CipherUpdate(..., aad)`: whether it did not fail.
  abbrev feed_aad : Direction → List ℕ → Ptr → Cmd evp.Ctx R Bool
  feed_aad dir aad ctx =
      if length aad == 0
      then pure true
      else (do fits_int (length aad); call_on ctx (evp.update_aad dir aad))

  -- `seal` from the allocation of the tag on.
  unfoldable pub seal_tag : ℕ → Ptr → Ptr → ℕ → Cmd evp.Ctx R (Result CipherError Sealed)
  seal_tag tag_len ctx ct ct_len = do
    tag ← xmalloc room (at_least_one tag_len)
    got ← call_on ctx (evp.get_tag (to_int tag_len))
    elim got [
      | none ↦ (do free ct; free tag; free_object ctx; pure (err bad_tag_size))
      | some bs ↦ (do
        write_at tag 0 bs
        free_object ctx
        pure (
            ok (record {
              ciphertext = record { ptr = ct; len = ct_len };
              tag = record { ptr = tag; len = tag_len };
            })))
    ]

  -- `seal` from the allocation of the ciphertext on.
  unfoldable pub seal_text : List ℕ → ℕ → Ptr → Cmd evp.Ctx R (Result CipherError Sealed)
  unfolding seal_tag
  seal_text plaintext tag_len ctx = do
    ct ← xmalloc room (at_least_one (length plaintext))
    fits_int (length plaintext)
    first ← call_on ctx (evp.update encrypt plaintext)
    elim first [
      | none ↦ (do free ct; free_object ctx; internal_error)
      | some bs1 ↦ (do
        write_at ct 0 bs1
        second ← call_on ctx (evp.final encrypt)
        elim second [
          | none ↦ (do free ct; free_object ctx; internal_error)
          | some bs2 ↦ (do
            write_at ct (length bs1) bs2
            seal_tag tag_len ctx ct (length bs1 + length bs2))
        ])
    ]

  -- exports_openssl_component_cipher_seal
  unfoldable pub seal :
      ℕ → List ℕ → List ℕ → List ℕ → List ℕ → ℕ → Cmd evp.Ctx R (Result CipherError Sealed)
  seal alg key nonce aad plaintext tag_len = elim (cipher_by_alg evp.build evp.sm4_gcm alg) [
    | none ↦ pure (err unsupported_algorithm)
    | some c ↦ if not (alg_is_aead alg) then pure (err not_aead) else do
      made ← call evp.ctx_new
      ctx ← new_object made
      if ctx == null then pure (err (internal 0)) else do
        sized ← set_cipher encrypt c (length nonce) ctx
        if not sized then (do free_object ctx; pure (err bad_iv_size)) else do
          tagged ← only_if (is_ccm alg) (call_on ctx (evp.set_tag_length (to_int tag_len)))
          keyed ← init_key evp encrypt key nonce ctx
          if not keyed then (do free_object ctx; pure (err bad_key_size)) else do
            total ←
                only_if (is_ccm alg)
                  (call_on ctx (evp.update_length encrypt (to_int (length plaintext))))
            fed ← feed_aad encrypt aad ctx
            if not fed
                then (do free_object ctx; internal_error)
                else seal_text plaintext tag_len ctx
  ]

  -- `open` from EVP_DecryptFinal_ex on, with `len` bytes of plaintext so far.
  unfoldable pub open_final : Ptr → ℕ → Ptr → Cmd evp.Ctx R (Result CipherError Buffer)
  open_final pt len ctx = do
    last ← call_on ctx (evp.final decrypt)
    free_object ctx
    elim last [
      | none ↦ (do free pt; pure (err tag_mismatch))
      | some bs2 ↦ (do write_at pt len bs2; pure (ok (record { ptr = pt; len = len + length bs2 })))
    ]

  -- `open` from the allocation of the plaintext on.
  unfoldable pub open_text :
      Bool → List ℕ → List ℕ → Ptr → Cmd evp.Ctx R (Result CipherError Buffer)
  unfolding open_final
  open_text ccm ciphertext tag ctx = do
    pt ← xmalloc room (at_least_one (length ciphertext))
    fits_int (length ciphertext)
    first ← call_on ctx (evp.update decrypt ciphertext)
    elim first [
      | none ↦ (do free pt; free_object ctx; internal_error)
      | some bs1 ↦ (do
        write_at pt 0 bs1
        tagged ← only_if (not ccm) (call_on ctx (evp.set_tag tag (to_int (length tag))))
        if not ccm && not tagged
            then (do free pt; free_object ctx; pure (err bad_tag_size))
            else open_final pt (length bs1) ctx)
    ]

  -- exports_openssl_component_cipher_open
  unfoldable pub open_sealed :
      ℕ → List ℕ → List ℕ → List ℕ → List ℕ → List ℕ → Cmd evp.Ctx R (Result CipherError Buffer)
  open_sealed alg key nonce aad ciphertext tag = elim (cipher_by_alg evp.build evp.sm4_gcm alg) [
    | none ↦ pure (err unsupported_algorithm)
    | some c ↦ if not (alg_is_aead alg) then pure (err not_aead) else do
      made ← call evp.ctx_new
      ctx ← new_object made
      if ctx == null then pure (err (internal 0)) else do
        sized ← set_cipher decrypt c (length nonce) ctx
        if not sized then (do free_object ctx; pure (err bad_iv_size)) else do
          tagged ← only_if (is_ccm alg) (call_on ctx (evp.set_tag tag (to_int (length tag))))
          keyed ← init_key evp decrypt key nonce ctx
          if not keyed then (do free_object ctx; pure (err bad_key_size)) else do
            total ←
                only_if (is_ccm alg)
                  (call_on ctx (evp.update_length decrypt (to_int (length ciphertext))))
            fed ← feed_aad decrypt aad ctx
            if not fed
                then (do free_object ctx; internal_error)
                else open_text (is_ccm alg) ciphertext tag ctx
  ]
