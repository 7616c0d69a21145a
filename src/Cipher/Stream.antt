-- ===== src/Cipher/Stream.antt =====
-- The streaming encryptor and decryptor of src/cipher.c. A handle is the address of its struct.
use openssl_wasm.Common.{ℕ, ◌+◌, Bool, not, ◌==◌, if◌then◌else◌, Option, none, some, List, length}
use openssl_wasm.Int.{to_int}
use openssl_wasm.Memory.{
  Cmd, Ptr, null, Result, ok, err, Buffer, ◌>>=◌, ◌>>◌, pure, call, call_on, xmalloc,
  xmalloc_struct, free, new_object, load, load_struct, store_struct, free_object, write_at,
  at_least_one,
}
use openssl_wasm.Cipher.Algs.{CipherId, cipher_by_alg, alg_is_aead}
use openssl_wasm.Cipher.Evp.{
  Direction, encrypt, decrypt, EvpCipher, CipherError, bad_tag_size, bad_padding, not_aead,
  tag_mismatch, internal_error, fits_int, init_cipher,
}

-- encryptor_rep and decryptor_rep; the decryptor has no `tag_len`, which is 0 there.
pub record CipherRep : Type 0 where
  pub ctx : Ptr
  pub alg : ℕ
  pub tag_len : ℕ

-- default_tag_len
abbrev pub default_tag_len : ℕ → ℕ
default_tag_len alg = 16

module _ (evp : EvpCipher) (room : ℕ → Bool) where
  -- exports_openssl_component_cipher_encryptor_destructor and _decryptor_destructor; drop_own on a
  -- handle runs it.
  unfoldable pub destructor : Ptr → Cmd evp.Ctx CipherRep (Unit {0})
  destructor rep =
      if rep == null then pure tt else do r ← load_struct rep; free_object r.ctx; free rep

  -- The context set up with the cipher, key, IV and padding if there are a context and a cipher.
  abbrev start :
      Direction
      → Ptr
      → Option CipherId
      → List ℕ
      → Option (List ℕ)
      → ℕ
      → Cmd evp.Ctx CipherRep (Unit {0})
  start dir ctx none key iv padding = pure tt
  start dir ctx (some c) key iv padding = if ctx == null then pure tt else do
    started ← init_cipher evp dir c key iv ctx
    padded ← call_on ctx (evp.set_padding (padding == 1))
    pure tt

  -- exports_openssl_component_cipher_constructor_encryptor (12 bytes) and _decryptor (8 bytes).
  unfoldable pub constructor :
      Direction → ℕ → List ℕ → Option (List ℕ) → ℕ → Cmd evp.Ctx CipherRep Ptr
  constructor dir alg key iv padding = do
    let size : ℕ = elim dir [ encrypt ↦ 12 | decrypt ↦ 8 ]
    let tag_len : ℕ = elim dir [ encrypt ↦ default_tag_len alg | decrypt ↦ 0 ]
    self ← xmalloc_struct room size (record { ctx = null; alg = alg; tag_len = tag_len })
    made ← call evp.ctx_new
    ctx ← new_object made
    store_struct self (record { ctx = ctx; alg = alg; tag_len = tag_len })
    start dir ctx (cipher_by_alg evp.build evp.sm4_gcm alg) key iv padding
    pure self

  -- exports_openssl_component_cipher_method_encryptor_set_aad and _decryptor_set_aad
  unfoldable pub set_aad :
      Direction → Ptr → List ℕ → Cmd evp.Ctx CipherRep (Result CipherError (Unit {0}))
  set_aad dir self aad = do
    r ← load_struct self
    if not (alg_is_aead r.alg) then pure (err not_aead) else do
      fits_int (length aad)
      fed ← call_on r.ctx (evp.update_aad dir aad)
      if fed then pure (ok tt) else internal_error

  -- exports_openssl_component_cipher_method_decryptor_set_tag
  unfoldable pub decryptor_set_tag :
      Ptr → List ℕ → Cmd evp.Ctx CipherRep (Result CipherError (Unit {0}))
  decryptor_set_tag self tag = do
    r ← load_struct self
    if not (alg_is_aead r.alg) then pure (err not_aead) else do
      set ← call_on r.ctx (evp.set_tag tag (to_int (length tag)))
      if set then pure (ok tt) else pure (err bad_tag_size)

  -- exports_openssl_component_cipher_method_encryptor_update and _decryptor_update
  unfoldable pub cipher_update :
      Direction → Ptr → List ℕ → Cmd evp.Ctx CipherRep (Result CipherError Buffer)
  cipher_update dir self input = do
    r ← load_struct self
    c ← load r.ctx
    fits_int (length input + evp.ctx_block_size c)
    p ← xmalloc room (at_least_one (length input + evp.ctx_block_size c))
    out ← call_on r.ctx (evp.update dir input)
    elim out [
      | none ↦ (do free p; internal_error)
      | some bs ↦ (do write_at p 0 bs; pure (ok (record { ptr = p; len = length bs })))
    ]

  -- exports_openssl_component_cipher_static_encryptor_finish
  unfoldable pub encryptor_finish :
      Ptr → Cmd evp.Ctx CipherRep (Result CipherError (Buffer × Option Buffer))
  unfolding destructor
  encryptor_finish handle = do
    r ← load_struct handle
    c ← load r.ctx
    p ← xmalloc room (at_least_one (evp.ctx_block_size c))
    out ← call_on r.ctx (evp.final encrypt)
    elim out [
      | none ↦ (do free p; destructor handle; internal_error)
      | some bs ↦ (do
        write_at p 0 bs
        let text : Buffer = record { ptr = p; len = length bs }
        if not (alg_is_aead r.alg) then (do destructor handle; pure (ok (text, none))) else (do
          t ← xmalloc room r.tag_len
          got ← call_on r.ctx (evp.get_tag (to_int r.tag_len))
          elim got [
            | none ↦ (do free p; free t; destructor handle; pure (err bad_tag_size))
            | some tag ↦ (do
              write_at t 0 tag
              destructor handle
              pure (ok (text, some (record { ptr = t; len = r.tag_len }))))
          ]))
    ]

  -- exports_openssl_component_cipher_static_decryptor_finish
  unfoldable pub decryptor_finish : Ptr → Cmd evp.Ctx CipherRep (Result CipherError Buffer)
  unfolding destructor
  decryptor_finish handle = do
    r ← load_struct handle
    c ← load r.ctx
    p ← xmalloc room (at_least_one (evp.ctx_block_size c))
    out ← call_on r.ctx (evp.final decrypt)
    destructor handle
    elim out [
      | none ↦ (do free p; pure (err (if alg_is_aead r.alg then tag_mismatch else bad_padding)))
      | some bs ↦ (do write_at p 0 bs; pure (ok (record { ptr = p; len = length bs })))
    ]
