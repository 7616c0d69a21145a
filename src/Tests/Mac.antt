-- ===== src/Tests/Mac.antt =====
-- The MAC model with a fixed tag in place of OpenSSL's MACs.
use openssl_wasm.Common.{
  ℕ, zero, suc, ◌≡◌, refl, ap, true, none, some, List, [], ◌∷◌, length, arith,
}
use openssl_wasm.Memory.Contract.{Yields}
use openssl_wasm.Mac.Params.{EvpMac, hmac}
use openssl_wasm.Mac.OneShot.{mac_one_shot}
use openssl_wasm.Mac.Contract.{mac_value, FitsSize, mac_one_shot_lem}
use openssl_wasm.Tests.World.{enough_room, empty_world, empty_world-IsFresh}

abbrev ones : ℕ → List ℕ
ones zero = []
ones (suc n) = 1 ∷ ones n

length-ones : (n : ℕ) → length (ones n) ≡ n
length-ones zero = refl
length-ones (suc n) = ap suc (length-ones n)

abbrev toy_mac : EvpMac
toy_mac = record {
  Mac = Unit {0};
  Ctx = List ℕ;
  fetch = λ name q. (some tt, q);
  ctx_new = λ m q. (some [], q);
  init = λ key ps c q. ((true, key), q);
  update = λ input c q. ((true, input), q);
  final_size = λ c q. ((some (length c), c), q);
  final = λ n c q. ((some (ones n), c), q);
  dup = λ c q. (some c, q);
}

toy_mac-FitsSize : FitsSize toy_mac
toy_mac-FitsSize n c q bs h = ground (arith, length-ones n)

mac_one_shot_example :
    Yields
      (λ x. none)
      (mac_one_shot toy_mac enough_room 0 (1 ∷ []) (4 ∷ 5 ∷ []) (hmac 3) empty_world)
      (mac_value toy_mac 0 (1 ∷ []) (4 ∷ 5 ∷ []) (hmac 3) [])
mac_one_shot_example =
    mac_one_shot_lem toy_mac enough_room 0 (1 ∷ []) (4 ∷ 5 ∷ []) (hmac 3) empty_world
      empty_world-IsFresh (λ n. refl) toy_mac-FitsSize
