-- ===== src/Cipher/Algs.antt =====
-- The cipher table of src/cipher.c. An algorithm is the discriminant that the bindings pass.
use openssl_wasm.Common.{
  ℕ, Bool, ◌||◌, ◌&&◌, leb, ◌==◌, if◌then◌else◌, true, only, none, Option, List, [], ◌∷◌, get_elem?,
}

-- The ciphers, by the EVP accessor that returns them, or the fetch for SM4-GCM.
pub data CipherId : Type 0 where
  evp_aes_128_ecb evp_aes_192_ecb evp_aes_256_ecb evp_aes_128_cbc evp_aes_192_cbc : CipherId
  evp_aes_256_cbc evp_aes_128_ctr evp_aes_192_ctr evp_aes_256_ctr evp_aes_128_cfb : CipherId
  evp_aes_192_cfb evp_aes_256_cfb evp_aes_128_ofb evp_aes_192_ofb evp_aes_256_ofb : CipherId
  evp_aes_128_xts evp_aes_256_xts evp_aes_128_gcm evp_aes_192_gcm evp_aes_256_gcm : CipherId
  evp_aes_128_ccm evp_aes_192_ccm evp_aes_256_ccm evp_aes_128_ocb evp_aes_192_ocb : CipherId
  evp_aes_256_ocb evp_chacha20 evp_chacha20_poly1305 evp_camellia_128_cbc : CipherId
  evp_camellia_192_cbc evp_camellia_256_cbc evp_aria_128_gcm evp_aria_192_gcm : CipherId
  evp_aria_256_gcm evp_sm4_cbc evp_sm4_gcm evp_des_ede3_cbc evp_rc4 : CipherId

-- Which of the ciphers are built in that OPENSSL_NO_CAMELLIA, OPENSSL_NO_ARIA and OPENSSL_NO_SM4
-- leave out.
pub record CipherBuild : Type 0 where
  pub camellia : Bool
  pub aria : Bool
  pub sm4 : Bool

abbrev pub full_cipher_build : CipherBuild
full_cipher_build = record { camellia = true; aria = true; sm4 = true }

-- The cases between the #ifndef of the table.
abbrev pub cipher_built : CipherBuild → CipherId → Bool
cipher_built build evp_camellia_128_cbc = build.camellia
cipher_built build evp_camellia_192_cbc = build.camellia
cipher_built build evp_camellia_256_cbc = build.camellia
cipher_built build evp_aria_128_gcm = build.aria
cipher_built build evp_aria_192_gcm = build.aria
cipher_built build evp_aria_256_gcm = build.aria
cipher_built build evp_sm4_cbc = build.sm4
cipher_built build evp_sm4_gcm = build.sm4
cipher_built build _ = true

abbrev pub cipher_cases : List CipherId
cipher_cases =
    evp_aes_128_ecb ∷ evp_aes_192_ecb ∷ evp_aes_256_ecb ∷ evp_aes_128_cbc ∷ evp_aes_192_cbc
    ∷ evp_aes_256_cbc ∷ evp_aes_128_ctr ∷ evp_aes_192_ctr ∷ evp_aes_256_ctr ∷ evp_aes_128_cfb
    ∷ evp_aes_192_cfb ∷ evp_aes_256_cfb ∷ evp_aes_128_ofb ∷ evp_aes_192_ofb ∷ evp_aes_256_ofb
    ∷ evp_aes_128_xts ∷ evp_aes_256_xts ∷ evp_aes_128_gcm ∷ evp_aes_192_gcm ∷ evp_aes_256_gcm
    ∷ evp_aes_128_ccm ∷ evp_aes_192_ccm ∷ evp_aes_256_ccm ∷ evp_aes_128_ocb ∷ evp_aes_192_ocb
    ∷ evp_aes_256_ocb ∷ evp_chacha20 ∷ evp_chacha20_poly1305 ∷ evp_camellia_128_cbc
    ∷ evp_camellia_192_cbc ∷ evp_camellia_256_cbc ∷ evp_aria_128_gcm ∷ evp_aria_192_gcm
    ∷ evp_aria_256_gcm ∷ evp_sm4_cbc ∷ evp_sm4_gcm ∷ evp_des_ede3_cbc ∷ evp_rc4 ∷ []

-- cipher_by_alg. `sm4_gcm` is what EVP_CIPHER_fetch gives for "SM4-GCM"; the code keeps it once it
-- is not NULL.
unfoldable pub cipher_by_alg : CipherBuild → Option CipherId → ℕ → Option CipherId
cipher_by_alg build sm4_gcm alg =
    if alg == 35
    then (if build.sm4 then sm4_gcm else none)
    else only (cipher_built build) (get_elem? cipher_cases alg)

-- alg_is_aead
unfoldable pub alg_is_aead : ℕ → Bool
alg_is_aead alg = leb 17 alg && leb alg 25 || (alg == 27 || (leb 31 alg && leb alg 33 || alg == 35))

-- is_ccm
unfoldable pub is_ccm : ℕ → Bool
is_ccm alg = alg == 20 || (alg == 21 || alg == 22)
