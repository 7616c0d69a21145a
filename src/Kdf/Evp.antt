-- ===== src/Kdf/Evp.antt =====
-- What the kdf interface takes from OpenSSL's EVP_KDF, and the parameters that it passes.
use Prim.Native.String.{String}
use openssl_wasm.Common.{ℕ, Option, List}
use openssl_wasm.Memory.{Queue}
use openssl_wasm.Digest.Algs.{MdBuild}

-- The parameter names OSSL_KDF_PARAM_*.
pub data ParamName : Type 0 where
  password salt iter digest key info mode mac scrypt_n scrypt_r scrypt_p scrypt_maxmem : ParamName
  secret argon2_ad argon2_lanes argon2_memcost : ParamName

-- One OSSL_PARAM, by the function that constructs it. OSSL_PARAM_construct_end is the list's end.
pub data Param : Type 0 where
  octet_string : ParamName → List ℕ → Param
  utf8_string : ParamName → String → Param
  uint uint32 uint64 int : ParamName → ℕ → Param

pub record EvpKdf : Type 1 where
  -- Which digests the build has.
  pub build : MdBuild
  pub Kdf : Type 0
  pub Ctx : Type 0
  -- EVP_KDF_fetch and EVP_KDF_CTX_new: nothing if they return NULL.
  pub fetch : String → Queue → Option Kdf × Queue
  pub ctx_new : Kdf → Queue → Option Ctx × Queue
  -- EVP_KDF_derive of a number of bytes: the bytes if it returns 1.
  pub derive : ℕ → List Param → Ctx → Queue → (Option (List ℕ) × Ctx) × Queue

-- The objects of OpenSSL that the interface holds.
pub data KdfObject (evp : EvpKdf) : Type 0 where
  kdf : evp.Kdf → KdfObject evp
  kdf_ctx : evp.Ctx → KdfObject evp
