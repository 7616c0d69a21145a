-- ===== src/Random/Bytes.antt =====
-- The random interface of src/component.c, and what it takes from OpenSSL's RAND.
use openssl_wasm.Common.{ℕ, Bool, Option, none, some, List}
use openssl_wasm.Int.{ℤ, to_int}
use openssl_wasm.Memory.{
  Queue, Cmd, Result, ok, err, Buffer, ◌>>=◌, ◌>>◌, pure, call_on, xmalloc, free, write_at,
  peek_last_error, at_least_one, Ptr,
}

-- The generator's state is an object of OpenSSL that always exists, at an address of its own.
pub record EvpRand : Type 1 where
  pub Drbg : Type 0
  -- RAND_bytes and RAND_priv_bytes of a count: the bytes, if they return 1.
  pub rand_bytes : ℤ → Drbg → Queue → (Option (List ℕ) × Drbg) × Queue
  pub rand_priv_bytes : ℤ → Drbg → Queue → (Option (List ℕ) × Drbg) × Queue

-- random-error
pub data RandomError : Type 0 where
  drbg_failure : ℕ → RandomError

module _ (evp : EvpRand) (room : ℕ → Bool) (drbg : Ptr) where
  -- Both exports, but for the generator that they ask.
  abbrev pub bytes_from :
      (ℤ → evp.Drbg → Queue → (Option (List ℕ) × evp.Drbg) × Queue)
      → ℕ
      → Cmd evp.Drbg ⊥ (Result RandomError Buffer)
  bytes_from rand n = do
    p ← xmalloc room (at_least_one n)
    out ← call_on drbg (rand (to_int n))
    elim out [
      | none ↦ (do free p; e ← peek_last_error; pure (err (drbg_failure e)))
      | some bs ↦ (do write_at p 0 bs; pure (ok (record { ptr = p; len = n })))
    ]

  -- exports_openssl_component_random_bytes
  unfoldable pub random_bytes : ℕ → Cmd evp.Drbg ⊥ (Result RandomError Buffer)
  random_bytes = bytes_from evp.rand_bytes

  -- exports_openssl_component_random_private_bytes
  unfoldable pub private_bytes : ℕ → Cmd evp.Drbg ⊥ (Result RandomError Buffer)
  private_bytes = bytes_from evp.rand_priv_bytes
