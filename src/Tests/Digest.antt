-- ===== src/Tests/Digest.antt =====
-- The digest model with a checksum in place of OpenSSL's digests.

use openssl_wasm.Common.{
  ◌∙◌, if◌then◌else◌, ℕ, zero, suc, ◌+◌, ◌%◌, ◌≡◌, refl, ap, true, Option, none, some, List, [],
  ◌∷◌, ◌++◌, length, arith,
}
use openssl_wasm.Memory.{ok}
use openssl_wasm.Memory.Contract.{Yields}
use openssl_wasm.Digest.Algs.{Md, full_md_build, is_shake, evp_sha256, digest_md, digest_is_xof}
use openssl_wasm.Digest.Evp.{EvpMd}
use openssl_wasm.Digest.OneShot.{one_shot, one_shot_xof}
use openssl_wasm.Digest.Contract.{
  one_shot_value, one_shot_xof_value, SizesHold, one_shot_lem, one_shot_xof_lem,
}
use openssl_wasm.Digest.Streaming.{IsIncremental, session, queue_after, session_lem}
use openssl_wasm.Tests.World.{enough_room, empty_world, empty_world-IsFresh}

abbrev sum : List ℕ → ℕ
sum [] = 0
sum (x ∷ xs) = x + sum xs

abbrev checksum : List ℕ → List ℕ
checksum bs = sum bs % 256 ∷ (length bs % 256 ∷ [])

abbrev zeros : ℕ → List ℕ
zeros zero = []
zeros (suc n) = 0 ∷ zeros n

length-zeros : (n : ℕ) → length (zeros n) ≡ n
length-zeros zero = refl
length-zeros (suc n) = ap suc (length-zeros n)

abbrev final_of : Option (Md × List ℕ) → Option (List ℕ)
final_of none = none
final_of (some (md, bs)) = if is_shake (some md) then none else some (checksum bs)

abbrev fed : List ℕ → Option (Md × List ℕ) → Option (Md × List ℕ)
fed input none = none
fed input (some (md, bs)) = some (md, bs ++ input)

abbrev toy_md : EvpMd
toy_md = record {
  build = full_md_build;
  Ctx = Option (Md × List ℕ);
  get_size = λ md. 2;
  get_block_size = λ md. 1;
  digest = λ md bs q. (some (checksum bs), q);
  ctx_new = λ q. (some none, q);
  init = λ md c q. ((true, some (md, [])), q);
  update = λ input c q. ((true, fed input c), q);
  final = λ c q. ((final_of c, c), q);
  final_xof = λ n c q. ((some (zeros n), c), q);
  ctx_size = λ c. 2;
  copy = λ c d q. ((true, c), q);
}

toy_md-SizesHold : SizesHold toy_md
toy_md-SizesHold = record {
  digest_fits = λ md input bs q h. ground arith;
  xof_fills = λ n c bs q h. ground (arith, length-zeros n);
}

abbrev toy_md_incremental : IsIncremental toy_md
toy_md_incremental = record {
  hash = λ md bs. checksum bs;
  state = λ c. c;
  init_works = λ md c q built plain. (refl, refl);
  update_works = λ input c q md bs h. (refl, ap (fed input) h);
  final_works = λ c q md bs plain h. (ap final_of h ∙ rw plain refl, refl);
}

one_shot_example :
    Yields
      (λ x. none)
      (one_shot toy_md enough_room 3 (200 ∷ 100 ∷ []) empty_world)
      (one_shot_value toy_md 3 (200 ∷ 100 ∷ []) [])
one_shot_example =
    one_shot_lem toy_md enough_room 3 (200 ∷ 100 ∷ []) empty_world empty_world-IsFresh
      toy_md-SizesHold (λ md. refl)

one_shot_xof_example :
    Yields
      (λ x. none)
      (one_shot_xof toy_md enough_room 12 (200 ∷ 100 ∷ []) 5 empty_world)
      (one_shot_xof_value toy_md 12 (200 ∷ 100 ∷ []) 5 [])
one_shot_xof_example =
    one_shot_xof_lem toy_md enough_room 12 (200 ∷ 100 ∷ []) 5 empty_world empty_world-IsFresh
      toy_md-SizesHold refl

session_example :
    Yields
      (λ x. none)
      (session toy_md enough_room 3 ((1 ∷ 2 ∷ []) ∷ (3 ∷ []) ∷ []) empty_world)
      (
        ok (6 ∷ 3 ∷ []),
        queue_after (session toy_md enough_room 3 ((1 ∷ 2 ∷ []) ∷ (3 ∷ []) ∷ []) empty_world),
      )
unfolding digest_md digest_is_xof
session_example =
    session_lem toy_md toy_md_incremental enough_room 3 evp_sha256 ((1 ∷ 2 ∷ []) ∷ (3 ∷ []) ∷ [])
      empty_world none refl refl empty_world-IsFresh refl refl (λ input. refl)
