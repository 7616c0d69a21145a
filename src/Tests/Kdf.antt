-- ===== src/Tests/Kdf.antt =====
-- The KDF model with a derivation in place of OpenSSL's that gives a fixed byte.
use openssl_wasm.Common.{ℕ, zero, suc, ◌≡◌, refl, ap, none, some, List, [], ◌∷◌, length, arith}
use openssl_wasm.Memory.Contract.{Yields}
use openssl_wasm.Digest.Algs.{full_md_build}
use openssl_wasm.Kdf.Evp.{EvpKdf}
use openssl_wasm.Kdf.Derive.{derive, derive_value, FillsBuffer, derive_lem}
use openssl_wasm.Kdf.Exports.{Tls13Params}
use openssl_wasm.Tests.World.{enough_room, empty_world, empty_world-IsFresh}

abbrev sevens : ℕ → List ℕ
sevens zero = []
sevens (suc n) = 7 ∷ sevens n

length-sevens : (n : ℕ) → length (sevens n) ≡ n
length-sevens zero = refl
length-sevens (suc n) = ap suc (length-sevens n)

abbrev toy_kdf : EvpKdf
toy_kdf = record {
  build = full_md_build;
  Kdf = Unit {0};
  Ctx = Unit {0};
  fetch = λ name q. (some tt, q);
  ctx_new = λ k q. (some tt, q);
  derive = λ n params c q. ((some (sevens n), c), q);
}

toy_kdf-FillsBuffer : FillsBuffer toy_kdf
toy_kdf-FillsBuffer n params c q bs h = ground (arith, length-sevens n)

derive_example :
    Yields
      (λ x. none)
      (derive toy_kdf enough_room "SCRYPT" [] 3 empty_world)
      (derive_value toy_kdf "SCRYPT" [] 3 [])
derive_example =
    derive_lem toy_kdf enough_room "SCRYPT" [] 3 empty_world empty_world-IsFresh toy_kdf-FillsBuffer
      refl

abbrev key_request : Tls13Params
key_request = record {
  hash = 3;
  secret = 1 ∷ 2 ∷ [];
  label = b'k' ∷ b'e' ∷ b'y' ∷ [];
  context = 9 ∷ [];
}
