-- ===== src/Cipher/Modes.antt =====
-- The two tests on algorithms of src/cipher.c against the modes of the ciphers in its table.
use openssl_wasm.Common.{
  ℕ, ◌≤◌, ◌≡◌, ◌∙◌, sym, ap, refl, Bool, true, false, ◌&&◌, ◌==◌, inl, inr, Bool-cases, Option,
  none, some, only, get_elem?, get_elem?_past, agree_everywhere, arith,
}
use openssl_wasm.Digest.Agree.{is_some}
use openssl_wasm.Cipher.Algs.{
  CipherId, CipherBuild, full_cipher_build, cipher_built, evp_aes_128_gcm, evp_aes_192_gcm,
  evp_aes_256_gcm, evp_aes_128_ccm, evp_aes_192_ccm, evp_aes_256_ccm, evp_aes_128_ocb,
  evp_aes_192_ocb, evp_aes_256_ocb, evp_chacha20_poly1305, evp_aria_128_gcm, evp_aria_192_gcm,
  evp_aria_256_gcm, evp_sm4_gcm, cipher_cases, cipher_by_alg, alg_is_aead, is_ccm,
}

-- The ciphers whose EVP_CIPHER_get_mode is GCM, CCM or OCB, and ChaCha20-Poly1305.
abbrev pub has_tag : CipherId → Bool
has_tag evp_aes_128_gcm = true
has_tag evp_aes_192_gcm = true
has_tag evp_aes_256_gcm = true
has_tag evp_aes_128_ccm = true
has_tag evp_aes_192_ccm = true
has_tag evp_aes_256_ccm = true
has_tag evp_aes_128_ocb = true
has_tag evp_aes_192_ocb = true
has_tag evp_aes_256_ocb = true
has_tag evp_chacha20_poly1305 = true
has_tag evp_aria_128_gcm = true
has_tag evp_aria_192_gcm = true
has_tag evp_aria_256_gcm = true
has_tag evp_sm4_gcm = true
has_tag _ = false

-- The ciphers in CCM mode.
abbrev pub in_ccm : CipherId → Bool
in_ccm evp_aes_128_ccm = true
in_ccm evp_aes_192_ccm = true
in_ccm evp_aes_256_ccm = true
in_ccm _ = false

abbrev pub holds : (CipherId → Bool) → Option CipherId → Bool
holds test none = false
holds test (some c) = test c

past : (x : ℕ) → 38 ≤ x → get_elem? cipher_cases x ≡ none
past x h = get_elem?_past cipher_cases x h

full_tags : (alg : ℕ) → alg_is_aead alg ≡ holds has_tag (get_elem? cipher_cases alg)
unfolding alg_is_aead
full_tags =
    agree_everywhere 38 alg_is_aead (λ x. holds has_tag (get_elem? cipher_cases x)) refl
      (λ x h. ground (arith, past x h))

full_ccm : (alg : ℕ) → is_ccm alg ≡ holds in_ccm (get_elem? cipher_cases alg)
unfolding is_ccm
full_ccm =
    agree_everywhere 38 is_ccm (λ x. holds in_ccm (get_elem? cipher_cases x)) refl
      (λ x h. ground (arith, past x h))

listed_35 : (alg : ℕ) → (alg == 35) ≡ true → get_elem? cipher_cases alg ≡ some evp_sm4_gcm
listed_35 alg h = let same : alg ≡ 35 = ground (arith, h) in ap (get_elem? cipher_cases) same

-- The table gives the same in every build that has the cipher.
only_built :
    (build : CipherBuild) (alg : ℕ)
    → cipher_by_alg build (some evp_sm4_gcm) alg
      ≡ only (cipher_built build) (get_elem? cipher_cases alg)
unfolding cipher_by_alg
only_built build alg = elim (Bool-cases (alg == 35)) [
  | inl fetched ↦ ground (arith, fetched, listed_35 alg fetched)
  | inr listed ↦ ground (arith, listed)
]

-- The full build leaves out nothing.
full_built :
    (o : Option CipherId)
    → holds has_tag (only (cipher_built full_cipher_build) o) ≡ holds has_tag o
full_built none = refl
full_built (some c) = elim (Bool-cases (cipher_built full_cipher_build c)) [
  | inl kept ↦ ground (arith, kept)
  | inr dropped ↦ ground (arith, dropped)
]

holds-only :
    (test built : CipherId → Bool) (o : Option CipherId)
    → holds test (only built o) ≡ (is_some (only built o) && holds test o)
holds-only test built none = refl
holds-only test built (some c) = elim (Bool-cases (built c)) [
  | inl kept ↦ ground (arith, kept)
  | inr dropped ↦ ground (arith, dropped)
]

-- No build leaves out a cipher in CCM mode.
ccm_built :
    (build : CipherBuild) (o : Option CipherId)
    → holds in_ccm (only (cipher_built build) o) ≡ holds in_ccm o
ccm_built build none = refl
ccm_built build (some c) = elim (Bool-cases (cipher_built build c)) [
  | inl kept ↦ ground (arith, kept)
  | inr dropped ↦ ground (arith, dropped)
]

-- For every build, whichever of Camellia, ARIA and SM4 it leaves out, and every discriminant, also
-- past the last: the cipher that the table gives, if it gives one, has an authentication tag exactly
-- where `alg_is_aead` says so; `is_ccm` says whether the table gives a cipher in CCM mode; and in the
-- full build `alg_is_aead` says whether the table gives a cipher with a tag. This holds where SM4-GCM
-- is fetched.
pub alg_is_aead_lem :
    (build : CipherBuild) (alg : ℕ)
    → (holds has_tag (cipher_by_alg build (some evp_sm4_gcm) alg)
        ≡ (is_some (cipher_by_alg build (some evp_sm4_gcm) alg) && alg_is_aead alg))
      × ((is_ccm alg ≡ holds in_ccm (cipher_by_alg build (some evp_sm4_gcm) alg))
          × (alg_is_aead alg
              ≡ holds has_tag (cipher_by_alg full_cipher_build (some evp_sm4_gcm) alg)))
alg_is_aead_lem build alg =
    let o = get_elem? cipher_cases alg in
    rw (only_built build alg, only_built full_cipher_build alg)
      (
        holds-only has_tag (cipher_built build) o
            ∙ ap (λ b. is_some (only (cipher_built build) o) && b) (sym (full_tags alg)),
        (full_ccm alg ∙ sym (ccm_built build o), full_tags alg ∙ sym (full_built o)),
      )
