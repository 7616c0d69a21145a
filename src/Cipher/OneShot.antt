-- ===== src/Cipher/OneShot.antt =====
-- The one-shot ciphers of src/cipher.c that are not AEAD, and the query for a cipher's sizes.
use openssl_wasm.Common.{
  ℕ, ◌+◌, Bool, not, ◌||◌, ◌==◌, if◌then◌else◌, Option, none, some, List, length,
}
use openssl_wasm.Memory.{
  Cmd, Ptr, null, Result, ok, err, Buffer, ◌>>=◌, ◌>>◌, pure, call, call_on, xmalloc, free,
  new_object, load, free_object, write_at, at_least_one,
}
use openssl_wasm.Cipher.Algs.{CipherId, cipher_by_alg, alg_is_aead}
use openssl_wasm.Cipher.Evp.{
  Direction, encrypt, decrypt, EvpCipher, CipherError, unsupported_algorithm, bad_key_size,
  bad_padding, aead_required, internal, internal_error, fits_int, init_cipher,
}

-- algorithm-info
pub record AlgorithmInfo : Type 0 where
  pub key_size : ℕ
  pub iv_size : ℕ
  pub block_size : ℕ
  pub is_aead : Bool

module _ {R : Type 0} (evp : EvpCipher) (room : ℕ → Bool) where
  -- exports_openssl_component_cipher_info
  unfoldable pub cipher_info : ℕ → Cmd evp.Ctx R (Result CipherError AlgorithmInfo)
  cipher_info alg = elim (cipher_by_alg evp.build evp.sm4_gcm alg) [
    | none ↦ pure (err unsupported_algorithm)
    | some c ↦ pure (
        ok (record {
          key_size = evp.key_length c;
          iv_size = evp.iv_length c;
          block_size = evp.block_size c;
          is_aead = alg_is_aead alg;
        }))
  ]

  -- EVP_CipherFinal_ex failed: the padding is to blame only when decrypting.
  abbrev pub final_error : {A : Type 0} → Direction → Cmd evp.Ctx R (Result CipherError A)
  final_error encrypt = internal_error
  final_error decrypt = pure (err bad_padding)

  -- `one_shot` from the allocation of `out` on.
  unfoldable pub run_cipher :
      Direction → CipherId → List ℕ → Ptr → Cmd evp.Ctx R (Result CipherError Buffer)
  run_cipher dir c input ctx = do
    fits_int (length input + evp.block_size c)
    out ← xmalloc room (at_least_one (length input + evp.block_size c))
    first ← call_on ctx (evp.update dir input)
    elim first [
      | none ↦ (do free out; free_object ctx; internal_error)
      | some bs1 ↦ (do
        write_at out 0 bs1
        second ← call_on ctx (evp.final dir)
        elim second [
          | none ↦ (do free out; free_object ctx; final_error dir)
          | some bs2 ↦ (do
            write_at out (length bs1) bs2
            free_object ctx
            pure (ok (record { ptr = out; len = length bs1 + length bs2 })))
        ])
    ]

  -- one_shot
  unfoldable pub one_shot :
      Direction
      → ℕ
      → List ℕ
      → Option (List ℕ)
      → ℕ
      → List ℕ
      → Cmd evp.Ctx R (Result CipherError Buffer)
  one_shot dir alg key iv padding input = elim (cipher_by_alg evp.build evp.sm4_gcm alg) [
    | none ↦ pure (err unsupported_algorithm)
    | some c ↦ if alg_is_aead alg then pure (err aead_required) else do
      made ← call evp.ctx_new
      ctx ← new_object made
      if ctx == null then pure (err (internal 0)) else do
        started ← init_cipher evp dir c key iv ctx
        held ← load ctx
        if not started || not (length key == evp.ctx_key_length held)
            then (do free_object ctx; pure (err bad_key_size))
            else do
              padded ← call_on ctx (evp.set_padding (padding == 1))
              run_cipher dir c input ctx
  ]

  -- exports_openssl_component_cipher_encrypt
  unfoldable pub cipher_encrypt :
      ℕ → List ℕ → Option (List ℕ) → ℕ → List ℕ → Cmd evp.Ctx R (Result CipherError Buffer)
  cipher_encrypt = one_shot encrypt

  -- exports_openssl_component_cipher_decrypt
  unfoldable pub cipher_decrypt :
      ℕ → List ℕ → Option (List ℕ) → ℕ → List ℕ → Cmd evp.Ctx R (Result CipherError Buffer)
  cipher_decrypt = one_shot decrypt
