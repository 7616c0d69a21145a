-- ===== src/Digest/Algs.antt =====
-- The algorithm tables of src/component.c and src/include/algs.h. An algorithm is the discriminant
-- that the bindings pass; a switch with cases 0, 1, ... and a default of NULL is a table read at
-- the discriminant, less the cases that the build leaves out.
use Prim.Native.String.{String}
use openssl_wasm.Common.{
  ℕ, Bool, true, false, none, some, only, ◌||◌, ◌==◌, Option, List, [], ◌∷◌, get_elem?,
}

-- The digests, by the EVP accessor that returns them.
pub data Md : Type 0 where
  evp_md5 evp_sha1 evp_sha224 evp_sha256 evp_sha384 evp_sha512 evp_sha512_224 evp_sha512_256 : Md
  evp_sha3_224 evp_sha3_256 evp_sha3_384 evp_sha3_512 evp_shake128 evp_shake256 : Md
  evp_blake2s256 evp_blake2b512 evp_ripemd160 evp_sm3 : Md

-- Which of the digests are built in that OPENSSL_NO_BLAKE2, OPENSSL_NO_RMD160 and OPENSSL_NO_SM3
-- leave out.
pub record MdBuild : Type 0 where
  pub blake2 : Bool
  pub rmd160 : Bool
  pub sm3 : Bool

abbrev pub full_md_build : MdBuild
full_md_build = record { blake2 = true; rmd160 = true; sm3 = true }

-- The cases between the #ifndef of digest_md.
abbrev pub md_built : MdBuild → Md → Bool
md_built build evp_blake2s256 = build.blake2
md_built build evp_blake2b512 = build.blake2
md_built build evp_ripemd160 = build.rmd160
md_built build evp_sm3 = build.sm3
md_built build _ = true

-- The digests whose output has any length.
abbrev pub is_shake : Option Md → Bool
is_shake none = false
is_shake (some evp_shake128) = true
is_shake (some evp_shake256) = true
is_shake (some _) = false

abbrev pub md_cases : List Md
md_cases =
    evp_md5 ∷ evp_sha1 ∷ evp_sha224 ∷ evp_sha256 ∷ evp_sha384 ∷ evp_sha512 ∷ evp_sha512_224
    ∷ evp_sha512_256 ∷ evp_sha3_224 ∷ evp_sha3_256 ∷ evp_sha3_384 ∷ evp_sha3_512 ∷ evp_shake128
    ∷ evp_shake256 ∷ evp_blake2s256 ∷ evp_blake2b512 ∷ evp_ripemd160 ∷ evp_sm3 ∷ []

-- digest_md of src/component.c
unfoldable pub digest_md : MdBuild → ℕ → Option Md
digest_md build alg = only (md_built build) (get_elem? md_cases alg)

abbrev wit_md_cases : List Md
wit_md_cases =
    evp_md5 ∷ evp_sha1 ∷ evp_sha224 ∷ evp_sha256 ∷ evp_sha384 ∷ evp_sha512 ∷ evp_sha512_224
    ∷ evp_sha512_256 ∷ evp_sha3_224 ∷ evp_sha3_256 ∷ evp_sha3_384 ∷ evp_sha3_512 ∷ evp_shake128
    ∷ evp_shake256 ∷ evp_blake2s256 ∷ evp_blake2b512 ∷ evp_ripemd160 ∷ evp_sm3 ∷ []

-- The cases between the #ifndef of wit_digest_md.
abbrev pub wit_md_built : MdBuild → Md → Bool
wit_md_built build evp_blake2s256 = build.blake2
wit_md_built build evp_blake2b512 = build.blake2
wit_md_built build evp_ripemd160 = build.rmd160
wit_md_built build evp_sm3 = build.sm3
wit_md_built build _ = true

-- wit_digest_md of src/include/algs.h
unfoldable pub wit_digest_md : MdBuild → ℕ → Option Md
wit_digest_md build alg = only (wit_md_built build) (get_elem? wit_md_cases alg)

abbrev pub wit_name_cases : List String
wit_name_cases =
    "MD5" ∷ "SHA1" ∷ "SHA2-224" ∷ "SHA2-256" ∷ "SHA2-384" ∷ "SHA2-512" ∷ "SHA2-512/224"
    ∷ "SHA2-512/256" ∷ "SHA3-224" ∷ "SHA3-256" ∷ "SHA3-384" ∷ "SHA3-512" ∷ "SHAKE-128" ∷ "SHAKE-256"
    ∷ "BLAKE2S-256" ∷ "BLAKE2B-512" ∷ "RIPEMD-160" ∷ "SM3" ∷ []

-- wit_digest_name of src/include/algs.h; it has all its cases in every build.
unfoldable pub wit_digest_name : ℕ → Option String
wit_digest_name alg = get_elem? wit_name_cases alg

-- digest_is_xof of src/component.c
unfoldable pub digest_is_xof : ℕ → Bool
digest_is_xof alg = alg == 12 || alg == 13
