-- ===== src/Mac/Params.antt =====
-- Algorithms, parameters and errors of src/mac.c, and what it takes from OpenSSL's EVP_MAC.
use Prim.Native.String.{String}
use openssl_wasm.Common.{ℕ, zero, suc, Bool, Option, none, some, List, [], ◌∷◌, get_elem?}
use openssl_wasm.Memory.{Queue, Result, ok, err}
use openssl_wasm.Digest.Algs.{wit_digest_name}

-- mac-error
pub data MacError : Type 0 where
  unsupported_algorithm bad_key_size bad_nonce_size missing_parameter : MacError
  internal : ℕ → MacError

-- The params variant of the interface; hashes and block ciphers are discriminants.
pub data MacParams : Type 0 where
  hmac : ℕ → MacParams
  cmac : ℕ → MacParams
  kmac : Option (List ℕ) → ℕ → MacParams
  poly1305 siphash : MacParams
  gmac : ℕ → List ℕ → MacParams

-- The parameter names OSSL_MAC_PARAM_*, and an OSSL_PARAM by the function that constructs it.
pub data ParamName : Type 0 where
  digest cipher custom size iv : ParamName

pub data Param : Type 0 where
  utf8_string : ParamName → String → Param
  octet_string : ParamName → List ℕ → Param
  size_t : ParamName → ℕ → Param

abbrev mac_names : List String
mac_names =
    "HMAC" ∷ ("CMAC" ∷ ("KMAC-128" ∷ ("KMAC-256" ∷ ("Poly1305" ∷ ("SIPHASH" ∷ ("GMAC" ∷ []))))))

-- mac_name
unfoldable pub mac_name : ℕ → Option String
mac_name alg = get_elem? mac_names alg

abbrev cbc_names : List String
cbc_names = "AES-128-CBC" ∷ ("AES-192-CBC" ∷ ("AES-256-CBC" ∷ []))

-- block_cipher_name
unfoldable pub block_cipher_name : ℕ → Option String
block_cipher_name c = get_elem? cbc_names c

abbrev gcm_names : List String
gcm_names = "AES-128-GCM" ∷ ("AES-192-GCM" ∷ ("AES-256-GCM" ∷ []))

-- gmac_cipher_name
unfoldable pub gmac_cipher_name : ℕ → Option String
gmac_cipher_name c = get_elem? gcm_names c

-- One named parameter, if there is a name.
abbrev named : ParamName → Option String → List Param → Result MacError (List Param)
named p none more = err unsupported_algorithm
named p (some name) more = ok (utf8_string p name ∷ more)

abbrev custom_param : Option (List ℕ) → List Param → List Param
custom_param none more = more
custom_param (some bs) more = octet_string custom bs ∷ more

-- The cases of build_mac_params, each on the params variant.
abbrev hmac_case : MacParams → Result MacError (List Param)
hmac_case (hmac hash) = named digest (wit_digest_name hash) []
hmac_case _ = err missing_parameter

abbrev cmac_case : MacParams → Result MacError (List Param)
cmac_case (cmac c) = named cipher (block_cipher_name c) []
cmac_case _ = err missing_parameter

abbrev kmac_case : MacParams → Result MacError (List Param)
kmac_case (kmac customization output_len) =
    ok (custom_param customization (size_t size output_len ∷ []))
kmac_case _ = err missing_parameter

abbrev gmac_case : MacParams → Result MacError (List Param)
gmac_case (gmac c nonce) = named cipher (gmac_cipher_name c) (octet_string iv nonce ∷ [])
gmac_case _ = err missing_parameter

-- build_mac_params: the parameters before OSSL_PARAM_construct_end.
unfoldable pub build_mac_params : ℕ → MacParams → Result MacError (List Param)
unfolding block_cipher_name gmac_cipher_name
build_mac_params zero p = hmac_case p
build_mac_params (suc zero) p = cmac_case p
build_mac_params (suc (suc zero)) p = kmac_case p
build_mac_params (suc (suc (suc zero))) p = kmac_case p
build_mac_params (suc (suc (suc (suc zero)))) p = ok []
build_mac_params (suc (suc (suc (suc (suc zero))))) p = ok []
build_mac_params (suc (suc (suc (suc (suc (suc zero)))))) p = gmac_case p
build_mac_params (suc (suc (suc (suc (suc (suc (suc n))))))) p = err unsupported_algorithm

pub record EvpMac : Type 1 where
  pub Mac : Type 0
  pub Ctx : Type 0
  -- EVP_MAC_fetch and EVP_MAC_CTX_new
  pub fetch : String → Queue → Option Mac × Queue
  pub ctx_new : Mac → Queue → Option Ctx × Queue
  -- EVP_MAC_init with a key, and EVP_MAC_update: whether they return 1.
  pub init : List ℕ → List Param → Ctx → Queue → (Bool × Ctx) × Queue
  pub update : List ℕ → Ctx → Queue → (Bool × Ctx) × Queue
  -- EVP_MAC_final with no buffer: the size, if it returns 1.
  pub final_size : Ctx → Queue → (Option ℕ × Ctx) × Queue
  -- EVP_MAC_final into a buffer of a size.
  pub final : ℕ → Ctx → Queue → (Option (List ℕ) × Ctx) × Queue
  -- EVP_MAC_CTX_dup
  pub dup : Ctx → Queue → Option Ctx × Queue

-- The objects of OpenSSL that the interface holds.
pub data MacObject (evp : EvpMac) : Type 0 where
  mac : evp.Mac → MacObject evp
  mac_ctx : evp.Ctx → MacObject evp
