-- ===== src/Tests/Tables.antt =====
-- The tables at ARIA-192-GCM and at RIPEMD-160, in builds that leave some out.
use openssl_wasm.Common.{◌≡◌, ◌&&◌, true, false, some}
use openssl_wasm.Cipher.Algs.{
  CipherBuild, full_cipher_build, evp_sm4_gcm, cipher_by_alg, alg_is_aead, is_ccm,
}
use openssl_wasm.Cipher.Modes.{has_tag, in_ccm, holds, alg_is_aead_lem}
use openssl_wasm.Digest.Algs.{
  MdBuild, full_md_build, is_shake, digest_md, digest_is_xof, wit_digest_md, wit_digest_name,
}
use openssl_wasm.Digest.Agree.{is_some, digest_md-agrees}

-- A build with ARIA alone, and one with BLAKE2 alone.
abbrev aria_only : CipherBuild
aria_only = record { camellia = false; aria = true; sm4 = false }

abbrev blake2_only : MdBuild
blake2_only = record { blake2 = true; rmd160 = false; sm3 = false }

alg_is_aead_example :
    (holds has_tag (cipher_by_alg aria_only (some evp_sm4_gcm) 32)
      ≡ (is_some (cipher_by_alg aria_only (some evp_sm4_gcm) 32) && alg_is_aead 32))
    × ((is_ccm 32 ≡ holds in_ccm (cipher_by_alg aria_only (some evp_sm4_gcm) 32))
        × (alg_is_aead 32 ≡ holds has_tag (cipher_by_alg full_cipher_build (some evp_sm4_gcm) 32)))
alg_is_aead_example = alg_is_aead_lem aria_only 32

digest_md-agrees_example :
    (digest_md blake2_only 16 ≡ wit_digest_md blake2_only 16)
    × ((digest_is_xof 16 ≡ is_shake (digest_md blake2_only 16))
        × (is_some (wit_digest_name 16) ≡ is_some (wit_digest_md full_md_build 16)))
digest_md-agrees_example = digest_md-agrees blake2_only 16
