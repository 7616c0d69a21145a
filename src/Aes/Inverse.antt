-- ===== src/Aes/Inverse.antt =====
-- Decryption undoes encryption: src/aes_simd.c with the keys of OpenSSL's two key schedules.

use openssl_wasm.Common.{ℕ, zero, suc, ◌+◌, ◌-◌, ◌*◌, ◌<◌, ◌≤◌, ◌≡◌, ◌∙◌, ap, ap₂, arith}
use openssl_wasm.Common.Bits.{xor_cancel_right}
use openssl_wasm.Aes.Vector.{V128, v128_xor, IsBytes, V128-ext}
use openssl_wasm.Aes.Round.{
  aes_sub_bytes, aes_inv_sub_bytes, aes_shift_rows, aes_inv_shift_rows, aes_mix_columns,
  aes_inv_mix_columns, load_round_key,
}
use openssl_wasm.Aes.Columns.{
  aes_inv_mix_columns-mix, aes_inv_mix_columns-xor, aes_mix_columns-IsBytes, v128_xor-IsBytes,
}
use openssl_wasm.Aes.Sbox.{inv_shift-inv_sub-shift-sub, shift-sub-IsBytes}
use openssl_wasm.Aes.Block.{
  AesKey, encrypt_rounds, decrypt_rounds, aes_encrypt_simd, aes_decrypt_simd,
}

-- `dec` is the decryption key that AES_set_decrypt_key makes where AES_set_encrypt_key makes `enc`:
-- the round keys in reverse, with InvMixColumns applied to the middle ones.
pub record IsInverseKey (enc dec : AesKey) : Type 0 where
  pub same_rounds : dec.rounds ≡ enc.rounds
  pub first : load_round_key dec.rd_key 0 ≡ load_round_key enc.rd_key (16 * enc.rounds)
  pub middle :
      (i j : ℕ)
      → 1 ≤ i
      → 1 ≤ j
      → i + j ≡ enc.rounds
      → load_round_key dec.rd_key (16 * i)
        ≡ aes_inv_mix_columns (load_round_key enc.rd_key (16 * j))
  pub last : load_round_key dec.rd_key (16 * enc.rounds) ≡ load_round_key enc.rd_key 0

v128_xor_cancel : (s t : V128) → v128_xor (v128_xor s t) t ≡ s
v128_xor_cancel s t =
    V128-ext (xor_cancel_right s.b0 t.b0) (xor_cancel_right s.b1 t.b1) (xor_cancel_right s.b2 t.b2)
      (xor_cancel_right s.b3 t.b3) (xor_cancel_right s.b4 t.b4) (xor_cancel_right s.b5 t.b5)
      (xor_cancel_right s.b6 t.b6) (xor_cancel_right s.b7 t.b7) (xor_cancel_right s.b8 t.b8)
      (xor_cancel_right s.b9 t.b9) (xor_cancel_right s.b10 t.b10) (xor_cancel_right s.b11 t.b11)
      (xor_cancel_right s.b12 t.b12) (xor_cancel_right s.b13 t.b13) (xor_cancel_right s.b14 t.b14)
      (xor_cancel_right s.b15 t.b15)

module _ (enc dec : AesKey) (inv : IsInverseKey enc dec)
    (bytes : (a : ℕ) → enc.rd_key a < 256) where
  load_round_key-IsBytes : (rk : ℕ) → IsBytes (load_round_key enc.rd_key rk)
  unfolding load_round_key
  load_round_key-IsBytes rk = record {
    l0 = bytes _;
    l1 = bytes _;
    l2 = bytes _;
    l3 = bytes _;
    l4 = bytes _;
    l5 = bytes _;
    l6 = bytes _;
    l7 = bytes _;
    l8 = bytes _;
    l9 = bytes _;
    l10 = bytes _;
    l11 = bytes _;
    l12 = bytes _;
    l13 = bytes _;
    l14 = bytes _;
    l15 = bytes _;
  }

  -- The state after a middle round of encryption.
  abbrev stepped : V128 → ℕ → V128
  stepped s rk =
      v128_xor (aes_mix_columns (aes_shift_rows (aes_sub_bytes s))) (load_round_key enc.rd_key rk)

  stepped-IsBytes : (s : V128) (rk : ℕ) → IsBytes s → IsBytes (stepped s rk)
  stepped-IsBytes s rk h =
      v128_xor-IsBytes _ _
        (aes_mix_columns-IsBytes (aes_shift_rows (aes_sub_bytes s)) (shift-sub-IsBytes s h))
        (load_round_key-IsBytes rk)

  -- A middle round of decryption undoes one of encryption.
  round_undo :
      (s : V128) (i j : ℕ)
      → IsBytes s
      → 1 ≤ i
      → 1 ≤ j
      → i + j ≡ enc.rounds
      → v128_xor
          (aes_inv_mix_columns (
            aes_inv_shift_rows
              (aes_inv_sub_bytes (aes_shift_rows (aes_sub_bytes (stepped s (16 * j)))))))
          (load_round_key dec.rd_key (16 * i))
        ≡ aes_shift_rows (aes_sub_bytes s)
  round_undo s i j h pi pj e =
      let x = aes_shift_rows (aes_sub_bytes s) in
      let xb = shift-sub-IsBytes s h in
      let k = load_round_key enc.rd_key (16 * j) in
      let kb = load_round_key-IsBytes (16 * j) in
      ap₂ v128_xor
        (ap aes_inv_mix_columns
            (inv_shift-inv_sub-shift-sub (stepped s (16 * j)) (stepped-IsBytes s (16 * j) h))
          ∙ aes_inv_mix_columns-xor (aes_mix_columns x) k (aes_mix_columns-IsBytes x xb) kb
          ∙ ap (λ y. v128_xor y (aes_inv_mix_columns k)) (aes_inv_mix_columns-mix x xb))
        (inv.middle i j pi pj e)
      ∙ v128_xor_cancel x (aes_inv_mix_columns k)

  rounds_undo :
      (left q : ℕ) (s : V128)
      → IsBytes s
      → suc q + left ≡ enc.rounds
      → decrypt_rounds dec.rd_key
          (enc.rounds - 1)
          16
          (v128_xor (encrypt_rounds enc.rd_key left (16 * suc q) s) (load_round_key dec.rd_key 0))
        ≡ decrypt_rounds dec.rd_key q (16 * suc left) (aes_shift_rows (aes_sub_bytes s))
  unfolding encrypt_rounds decrypt_rounds
  rounds_undo zero q s h e =
      let last_round : enc.rounds - 1 ≡ q = omega arith in
      let whole : 16 * suc q ≡ 16 * enc.rounds = omega arith in
      let x = aes_shift_rows (aes_sub_bytes s) in
      ap₂ (λ n t. decrypt_rounds dec.rd_key n 16 t) last_round
        (ap (λ a. v128_xor (v128_xor x (load_round_key enc.rd_key a)) (load_round_key dec.rd_key 0))
            whole
          ∙ ap (v128_xor (v128_xor x (load_round_key enc.rd_key (16 * enc.rounds)))) inv.first
          ∙ v128_xor_cancel x (load_round_key enc.rd_key (16 * enc.rounds)))
  rounds_undo (suc left) q s h e =
      let t = stepped s (16 * suc q) in
      let next_key : 16 * suc q + 16 ≡ 16 * suc (suc q) = omega arith in
      let next_at : 16 * suc left + 16 ≡ 16 * suc (suc left) = omega arith in
      ap
        (λ a.
          decrypt_rounds dec.rd_key (enc.rounds - 1) 16
            (v128_xor (encrypt_rounds enc.rd_key left a t) (load_round_key dec.rd_key 0)))
        next_key
      ∙ rounds_undo left (suc q) t (stepped-IsBytes s (16 * suc q) h) (omega arith)
      ∙ ap₂ (decrypt_rounds dec.rd_key q) next_at
          (round_undo s (suc left) (suc q) h (omega arith) (omega arith) (omega arith))

  -- Decrypting what was encrypted gives the block back, at every number of rounds from 1 on, for
  -- every block of bytes and every pair of keys in which the round keys are bytes and the
  -- decryption key is the inverse schedule of the encryption key.
  pub aes_decrypt_simd-encrypt :
      (input : V128)
      → IsBytes input
      → 1 ≤ enc.rounds
      → aes_decrypt_simd (aes_encrypt_simd input enc) dec ≡ input
  unfolding aes_decrypt_simd aes_encrypt_simd
  aes_decrypt_simd-encrypt input h pos =
      let s = v128_xor input (load_round_key enc.rd_key 0) in
      let sb = v128_xor-IsBytes input _ h (load_round_key-IsBytes 0) in
      let whole : 16 * suc (enc.rounds - 1) ≡ 16 * enc.rounds = omega arith in
      ap
        (λ n. decrypt_rounds dec.rd_key (n - 1) 16 (
          v128_xor (encrypt_rounds enc.rd_key (enc.rounds - 1) 16 s) (load_round_key dec.rd_key 0)))
        inv.same_rounds
      ∙ rounds_undo (enc.rounds - 1) 0 s sb (omega arith)
      ∙ ap₂ v128_xor (inv_shift-inv_sub-shift-sub s sb)
          (ap (load_round_key dec.rd_key) whole ∙ inv.last)
      ∙ v128_xor_cancel input (load_round_key enc.rd_key 0)
