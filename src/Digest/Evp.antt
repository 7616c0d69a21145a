-- ===== src/Digest/Evp.antt =====
-- What the digest interface takes from OpenSSL's EVP_MD: a context type and its functions, each
-- with the error queue that it reads and leaves.
use openssl_wasm.Common.{ℕ, Bool, Option, List}
use openssl_wasm.Memory.{Queue}
use openssl_wasm.Digest.Algs.{Md, MdBuild}

pub record EvpMd : Type 1 where
  -- Which digests the build has.
  pub build : MdBuild
  pub Ctx : Type 0
  -- EVP_MD_get_size and EVP_MD_get_block_size of the digests that EVP has.
  pub get_size : Md → ℕ
  pub get_block_size : Md → ℕ
  -- EVP_Digest: the digest, or nothing if it fails.
  pub digest : Md → List ℕ → Queue → Option (List ℕ) × Queue
  -- EVP_MD_CTX_new
  pub ctx_new : Queue → Option Ctx × Queue
  -- EVP_DigestInit_ex and EVP_DigestUpdate: whether they return 1, and the context after.
  pub init : Md → Ctx → Queue → (Bool × Ctx) × Queue
  pub update : List ℕ → Ctx → Queue → (Bool × Ctx) × Queue
  -- EVP_DigestFinal_ex, and EVP_DigestFinalXOF at a length.
  pub final : Ctx → Queue → (Option (List ℕ) × Ctx) × Queue
  pub final_xof : ℕ → Ctx → Queue → (Option (List ℕ) × Ctx) × Queue
  -- EVP_MD_CTX_get_size as an unsigned int, of a context or of NULL.
  pub ctx_size : Option Ctx → ℕ
  -- EVP_MD_CTX_copy_ex from the first context into the second.
  pub copy : Ctx → Ctx → Queue → (Bool × Ctx) × Queue
