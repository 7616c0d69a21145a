-- ===== src/Kdf/Expand.antt =====
-- TLS 1.3 HKDF-Expand-Label as a whole.
use Prim.Native.String.{String}
use openssl_wasm.Common.{ℕ, ◌+◌, Bool, ◌||◌, ltb, if◌then◌else◌, none, some, List, [], ◌∷◌, length}
use openssl_wasm.Memory.{Queue, World, Result, err, ◌>>◌}
use openssl_wasm.Memory.Contract.{IsFresh}
use openssl_wasm.Digest.Algs.{wit_digest_name}
use openssl_wasm.Kdf.Evp.{
  digest, key, info, mode, Param, octet_string, utf8_string, int, EvpKdf, KdfObject,
}
use openssl_wasm.Kdf.Derive.{KdfError, unsupported_algorithm, invalid_parameter, derive_value}
use openssl_wasm.Kdf.Label.{hkdf_label, info_world}
use openssl_wasm.Kdf.Exports.{Tls13Params, expand_only}

module _ (evp : EvpKdf) where
  abbrev expand_params : String → List ℕ → List ℕ → List Param
  expand_params dname secret bs =
      int mode expand_only
      ∷ (utf8_string digest dname ∷ (octet_string key secret ∷ (octet_string info bs ∷ [])))

  -- RFC 8446, 7.1: HKDF-Expand of the secret with the HkdfLabel as info, for a known hash and
  -- parts that fit their length fields.
  unfoldable pub tls13_expand_label_value :
      Tls13Params → ℕ → Queue → Result KdfError (List ℕ) × Queue
  tls13_expand_label_value params out_len q = elim (wit_digest_name params.hash) [
    | none ↦ (err unsupported_algorithm, q)
    | some dname ↦
        if ltb 255 (length params.label + 6) || ltb 255 (length params.context) || ltb 65535 out_len
        then (err invalid_parameter, q)
        else derive_value evp "HKDF"
            (expand_params dname params.secret (hkdf_label out_len params.label params.context))
            out_len q
  ]

  module _ (room : ℕ → Bool) (params : Tls13Params) (out_len : ℕ) (w : World (KdfObject evp) ⊥)
      (fresh : IsFresh w) where
    abbrev during : World (KdfObject evp) ⊥
    during = info_world room params.label params.context out_len w
