-- ===== src/Tests/Cipher.antt =====
-- The cipher model with the identity and one byte of padding in place of OpenSSL's ciphers.
use openssl_wasm.Common.{refl, true, Option, none, some, [], ◌∷◌, arith}
use openssl_wasm.Memory.Contract.{Yields}
use openssl_wasm.Cipher.Algs.{CipherId, full_cipher_build}
use openssl_wasm.Cipher.Evp.{encrypt, EvpCipher}
use openssl_wasm.Cipher.OneShot.{one_shot}
use openssl_wasm.Cipher.Contract.{OutputFits, one_shot_value, cipher_one_shot_lem}
use openssl_wasm.Tests.World.{enough_room, empty_world, empty_world-IsFresh}

abbrev chosen : Option CipherId → Option CipherId → Option CipherId
chosen none h = h
chosen (some c) h = some c

abbrev toy_cipher : EvpCipher
toy_cipher = record {
  Ctx = Option CipherId;
  build = full_cipher_build;
  sm4_gcm = none;
  key_length = λ c. 2;
  iv_length = λ c. 1;
  block_size = λ c. 4;
  provided = λ c. true;
  ctx_new = λ q. (some none, q);
  init = λ dir c key iv h q. ((true, chosen c h), q);
  ctx_key_length = λ h. 2;
  ctx_iv_length = λ h. 1;
  ctx_block_size = λ h. 4;
  set_padding = λ on h q. ((true, h), q);
  update = λ dir input h q. ((some input, h), q);
  update_aad = λ dir aad h q. ((true, h), q);
  update_length = λ dir n h q. ((true, h), q);
  final = λ dir h q. ((some (1 ∷ []), h), q);
  set_iv_length = λ n h q. ((true, h), q);
  set_tag_length = λ n h q. ((true, h), q);
  set_tag = λ tag n h q. ((true, h), q);
  get_tag = λ n h q. ((some [], h), q);
}

toy_cipher-OutputFits : OutputFits toy_cipher
toy_cipher-OutputFits = record {
  runs = λ h. h;
  init_runs = λ dir c key iv h q e. (refl, refl);
  padding_runs = λ on h q. refl;
  fits = λ dir c input h q q' e. omega arith;
}

cipher_one_shot_example :
    Yields
      (λ x. none)
      (one_shot {R = ⊥} toy_cipher enough_room encrypt 3
        (5 ∷ 6 ∷ [])
        (some (0 ∷ []))
        1
        (7 ∷ 8 ∷ 9 ∷ [])
        empty_world)
      (one_shot_value toy_cipher encrypt 3 (5 ∷ 6 ∷ []) (some (0 ∷ [])) 1 (7 ∷ 8 ∷ 9 ∷ []) [])
cipher_one_shot_example =
    cipher_one_shot_lem toy_cipher enough_room encrypt 3 (5 ∷ 6 ∷ []) (some (0 ∷ [])) 1
      (7 ∷ 8 ∷ 9 ∷ []) empty_world empty_world-IsFresh toy_cipher-OutputFits
      (λ c e. ((refl, omega arith), (omega arith, omega arith)))
