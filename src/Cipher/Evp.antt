-- ===== src/Cipher/Evp.antt =====
-- What the cipher interface takes from OpenSSL's EVP_CIPHER, and the errors of the interface.
use openssl_wasm.Common.{ℕ, Bool, Option, none, some, List, length, leb, ltb, ◌^◌, if◌then◌else◌}
use openssl_wasm.Int.{ℤ}
use openssl_wasm.Memory.{
  Queue, Ptr, Cmd, fault, Result, err, ◌>>=◌, ◌>>◌, pure, call_on, load, peek_last_error,
}
use openssl_wasm.Cipher.Algs.{CipherId, CipherBuild}

-- The direction of a context: EVP_Encrypt... or EVP_Decrypt...
pub data Direction : Type 0 where
  encrypt decrypt : Direction

pub record EvpCipher : Type 1 where
  pub Ctx : Type 0
  -- Which ciphers the build has.
  pub build : CipherBuild
  -- EVP_CIPHER_fetch of "SM4-GCM".
  pub sm4_gcm : Option CipherId
  -- EVP_CIPHER_get_key_length, _iv_length and _block_size.
  pub key_length : CipherId → ℕ
  pub iv_length : CipherId → ℕ
  pub block_size : CipherId → ℕ
  -- Whether a provider that is loaded has the cipher; else EVP_CipherInit_ex2 fails before it reads
  -- a key.
  pub provided : CipherId → Bool
  pub ctx_new : Queue → Option Ctx × Queue
  -- EVP_CipherInit_ex2 with a cipher, and a key and IV unless they are NULL.
  pub init :
      Direction
      → Option CipherId
      → Option (List ℕ)
      → Option (List ℕ)
      → Ctx
      → Queue
      → (Bool × Ctx) × Queue
  -- EVP_CIPHER_CTX_get_key_length, _iv_length and _block_size.
  pub ctx_key_length : Ctx → ℕ
  pub ctx_iv_length : Ctx → ℕ
  pub ctx_block_size : Ctx → ℕ
  -- EVP_CIPHER_CTX_set_padding
  pub set_padding : Bool → Ctx → Queue → (Bool × Ctx) × Queue
  -- EVP_CipherUpdate into a buffer, with the bytes that it writes.
  pub update : Direction → List ℕ → Ctx → Queue → (Option (List ℕ) × Ctx) × Queue
  -- EVP_CipherUpdate with no output: of associated data, or of a total length alone.
  pub update_aad : Direction → List ℕ → Ctx → Queue → (Bool × Ctx) × Queue
  pub update_length : Direction → ℤ → Ctx → Queue → (Bool × Ctx) × Queue
  -- EVP_CipherFinal_ex
  pub final : Direction → Ctx → Queue → (Option (List ℕ) × Ctx) × Queue
  -- EVP_CIPHER_CTX_ctrl with EVP_CTRL_AEAD_SET_IVLEN, _SET_TAG (of a length alone, or of a tag) and
  -- _GET_TAG, with their lengths as an `int`.
  pub set_iv_length : ℤ → Ctx → Queue → (Bool × Ctx) × Queue
  pub set_tag_length : ℤ → Ctx → Queue → (Bool × Ctx) × Queue
  pub set_tag : List ℕ → ℤ → Ctx → Queue → (Bool × Ctx) × Queue
  pub get_tag : ℤ → Ctx → Queue → (Option (List ℕ) × Ctx) × Queue

-- cipher-error
pub data CipherError : Type 0 where
  unsupported_algorithm bad_key_size bad_iv_size bad_tag_size bad_padding : CipherError
  aead_required not_aead output_buffer_too_small tag_mismatch : CipherError
  internal : ℕ → CipherError

module _ {O R : Type 0} where
  abbrev pub internal_error : {A : Type 0} → Cmd O R (Result CipherError A)
  internal_error = do e ← peek_last_error; pure (err (internal e))

  -- OpenSSL reads `n` bytes at a pointer to `bs`: past its end is a fault.
  abbrev pub reads : ℕ → List ℕ → Cmd O R (Unit {0})
  reads n bs = if leb n (length bs) then pure tt else λ w. fault

  -- A length that the code computes as an `int`: one that does not fit is counted as a fault.
  abbrev pub fits_int : ℕ → Cmd O R (Unit {0})
  fits_int n = if ltb n (2 ^ 31) then pure tt else λ w. fault

  abbrev pub reads_option : ℕ → Option (List ℕ) → Cmd O R (Unit {0})
  reads_option n none = pure tt
  reads_option n (some bs) = reads n bs

module _ {R : Type 0} (evp : EvpCipher) where
  -- EVP_CipherInit_ex2 with a cipher: it reads the key and the IV at the cipher's lengths,
  -- whatever the lengths of the lists that hold them, or nothing where no provider has the cipher.
  abbrev pub init_cipher :
      Direction → CipherId → List ℕ → Option (List ℕ) → Ptr → Cmd evp.Ctx R Bool
  init_cipher dir c key iv ctx = do
    reads (if evp.provided c then evp.key_length c else 0) key
    reads_option (if evp.provided c then evp.iv_length c else 0) iv
    call_on ctx (evp.init dir (some c) (some key) iv)

  -- EVP_CipherInit_ex2 with the key and IV of a context that has its cipher.
  abbrev pub init_key : Direction → List ℕ → List ℕ → Ptr → Cmd evp.Ctx R Bool
  init_key dir key iv ctx = do
    c ← load ctx
    reads (evp.ctx_key_length c) key
    reads (evp.ctx_iv_length c) iv
    call_on ctx (evp.init dir none (some key) (some iv))
