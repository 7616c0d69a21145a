-- ===== src/Kdf/Exports.antt =====
-- The exported functions of src/kdf.c.
use Prim.Native.String.{String}
use openssl_wasm.Common.{
  ℕ, Bool, ◌==◌, if◌then◌else◌, Option, none, some, List, [], ◌∷◌, ◌++◌, get_elem?,
}
use openssl_wasm.Memory.{Result, err, Buffer, ◌>>=◌, ◌>>◌, pure, free, read_bytes}
use openssl_wasm.Digest.Algs.{wit_digest_md, wit_digest_name, Md}
use openssl_wasm.Kdf.Evp.{
  ParamName, password, salt, iter, digest, key, info, mode, mac, scrypt_n, scrypt_r, scrypt_p,
  scrypt_maxmem, secret, argon2_ad, argon2_lanes, argon2_memcost, Param, octet_string, utf8_string,
  uint, uint32, uint64, int, EvpKdf,
}
use openssl_wasm.Kdf.Derive.{KdfError, unsupported_algorithm, invalid_parameter, KdfCmd, derive}
use openssl_wasm.Kdf.Label.{label_too_long, build_info}

-- EVP_KDF_HKDF_MODE_EXTRACT_ONLY and EVP_KDF_HKDF_MODE_EXPAND_ONLY.
abbrev pub extract_only : ℕ
extract_only = 1

abbrev pub expand_only : ℕ
expand_only = 2

-- The params records of the interface.
pub record Pbkdf2Params : Type 0 where
  pub hash : ℕ
  pub salt : List ℕ
  pub iterations : ℕ

pub record HkdfParams : Type 0 where
  pub hash : ℕ
  pub salt : Option (List ℕ)
  pub info : List ℕ

pub record HkdfExtractParams : Type 0 where
  pub hash : ℕ
  pub salt : Option (List ℕ)

pub record HashInfoParams : Type 0 where
  pub hash : ℕ
  pub info : List ℕ

pub record ScryptParams : Type 0 where
  pub salt : List ℕ
  pub n : ℕ
  pub r : ℕ
  pub p : ℕ
  pub max_mem : ℕ

pub record Argon2Params : Type 0 where
  pub kind : ℕ
  pub salt : List ℕ
  pub secret : Option (List ℕ)
  pub ad : Option (List ℕ)
  pub lanes : ℕ
  pub m_cost : ℕ
  pub t_cost : ℕ

pub record KbkdfParams : Type 0 where
  pub hash : ℕ
  pub label : List ℕ
  pub context : List ℕ

pub record Tls13Params : Type 0 where
  pub hash : ℕ
  pub secret : List ℕ
  pub label : List ℕ
  pub context : List ℕ

-- A parameter that is passed only if its option is set.
abbrev pub optional : ParamName → Option (List ℕ) → List Param
optional name none = []
optional name (some bs) = octet_string name bs ∷ []

-- The `name` of the Argon2 variant.
abbrev argon2_name : ℕ → Option String
argon2_name kind = get_elem? ("ARGON2D" ∷ ("ARGON2I" ∷ ("ARGON2ID" ∷ []))) kind

module _ (evp : EvpKdf) (room : ℕ → Bool) (md_size : Md → ℕ) where
  abbrev Bytes : Type 0
  Bytes = KdfCmd evp (Result KdfError Buffer)

  -- exports_openssl_component_kdf_pbkdf2
  unfoldable pub pbkdf2 : List ℕ → Pbkdf2Params → ℕ → Bytes
  pbkdf2 pass params out_len = elim (wit_digest_name params.hash) [
    | none ↦ pure (err unsupported_algorithm)
    | some dname ↦
        derive evp room "PBKDF2"
          (octet_string password pass
            ∷ (octet_string salt params.salt
                ∷ (uint iter params.iterations ∷ (utf8_string digest dname ∷ []))))
          out_len
  ]

  -- exports_openssl_component_kdf_hkdf
  unfoldable pub hkdf : List ℕ → HkdfParams → ℕ → Bytes
  hkdf ikm params out_len = elim (wit_digest_name params.hash) [
    | none ↦ pure (err unsupported_algorithm)
    | some dname ↦
        derive evp room "HKDF"
          (utf8_string digest dname
            ∷ (octet_string key ikm
                ∷ (optional salt params.salt ++ octet_string info params.info ∷ [])))
          out_len
  ]

  -- exports_openssl_component_kdf_hkdf_extract. The table of names has a digest for every entry.
  unfoldable pub hkdf_extract : List ℕ → HkdfExtractParams → Bytes
  hkdf_extract ikm params = elim (wit_digest_name params.hash) [
    | none ↦ pure (err unsupported_algorithm)
    | some dname ↦
        let hlen : ℕ = elim (wit_digest_md evp.build params.hash) [
          | none ↦ 0
          | some md ↦ md_size md
        ] in
        derive evp room "HKDF"
          (int mode extract_only
            ∷ (utf8_string digest dname ∷ (octet_string key ikm ∷ optional salt params.salt)))
          hlen
  ]

  -- exports_openssl_component_kdf_hkdf_expand
  unfoldable pub hkdf_expand : List ℕ → HashInfoParams → ℕ → Bytes
  hkdf_expand prk params out_len = elim (wit_digest_name params.hash) [
    | none ↦ pure (err unsupported_algorithm)
    | some dname ↦
        derive evp room "HKDF"
          (int mode expand_only
            ∷ (utf8_string digest dname
                ∷ (octet_string key prk ∷ (octet_string info params.info ∷ []))))
          out_len
  ]

  -- exports_openssl_component_kdf_scrypt
  unfoldable pub scrypt : List ℕ → ScryptParams → ℕ → Bytes
  scrypt pass params out_len =
      derive evp room "SCRYPT"
        (octet_string password pass
          ∷ (octet_string salt params.salt
              ∷ (uint64 scrypt_n params.n
                  ∷ (uint32 scrypt_r params.r
                      ∷ (uint32 scrypt_p params.p
                          ∷ (if params.max_mem == 0
                              then []
                              else uint64 scrypt_maxmem params.max_mem ∷ []))))))
        out_len

  -- exports_openssl_component_kdf_argon2
  unfoldable pub argon2 : List ℕ → Argon2Params → ℕ → Bytes
  argon2 pass params out_len = elim (argon2_name params.kind) [
    | none ↦ pure (err unsupported_algorithm)
    | some name ↦
        derive evp room name
          (octet_string password pass
            ∷ (octet_string salt params.salt
                ∷ (optional secret params.secret
                    ++ (optional argon2_ad params.ad
                        ++ uint32 argon2_lanes params.lanes
                          ∷ (uint32 argon2_memcost params.m_cost
                              ∷ (uint32 iter params.t_cost ∷ []))))))
          out_len
  ]

  -- exports_openssl_component_kdf_kbkdf
  unfoldable pub kbkdf : List ℕ → KbkdfParams → ℕ → Bytes
  kbkdf secret_key params out_len = elim (wit_digest_name params.hash) [
    | none ↦ pure (err unsupported_algorithm)
    | some dname ↦
        derive evp room "KBKDF"
          (utf8_string mac "HMAC"
            ∷ (utf8_string digest dname
                ∷ (utf8_string mode "COUNTER"
                    ∷ (octet_string key secret_key
                        ∷ (octet_string salt params.label
                            ∷ (octet_string info params.context ∷ []))))))
          out_len
  ]

  -- exports_openssl_component_kdf_ss_kdf
  unfoldable pub ss_kdf : List ℕ → HkdfParams → ℕ → Bytes
  ss_kdf shared_secret params out_len = elim (wit_digest_name params.hash) [
    | none ↦ pure (err unsupported_algorithm)
    | some dname ↦
        derive evp room "SSKDF"
          (utf8_string digest dname
            ∷ (octet_string key shared_secret
                ∷ (octet_string info params.info ∷ optional salt params.salt)))
          out_len
  ]

  -- exports_openssl_component_kdf_x963_kdf
  unfoldable pub x963_kdf : List ℕ → HashInfoParams → ℕ → Bytes
  x963_kdf shared_secret params out_len = elim (wit_digest_name params.hash) [
    | none ↦ pure (err unsupported_algorithm)
    | some dname ↦
        derive evp room "X963KDF"
          (utf8_string digest dname
            ∷ (octet_string key shared_secret ∷ (octet_string info params.info ∷ [])))
          out_len
  ]

  -- exports_openssl_component_kdf_tls13_expand_label. OpenSSL reads `info` from the buffer.
  unfoldable pub tls13_expand_label : Tls13Params → ℕ → Bytes
  tls13_expand_label params out_len = elim (wit_digest_name params.hash) [
    | none ↦ pure (err unsupported_algorithm)
    | some dname ↦
        if label_too_long params.label params.context out_len
        then pure (err invalid_parameter)
        else do
          p ← build_info room params.label params.context out_len
          bs ← read_bytes p
          r ←
              derive evp room "HKDF"
                (int mode expand_only
                  ∷ (utf8_string digest dname
                      ∷ (octet_string key params.secret ∷ (octet_string info bs ∷ []))))
                out_len
          free p
          pure r
  ]
