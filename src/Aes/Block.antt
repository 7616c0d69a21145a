-- ===== src/Aes/Block.antt =====
-- The block functions of src/aes_simd.c and the wrappers that the linker puts in place of
-- OpenSSL's AES_encrypt and AES_decrypt. OpenSSL's own functions are the parameter `real`.
use openssl_wasm.Common.{ℕ, zero, suc, ◌+◌, ◌-◌, Bool, ◌||◌, ◌==◌, if◌then◌else◌}
use openssl_wasm.Aes.Vector.{V128, v128_xor}
use openssl_wasm.Aes.Round.{
  aes_sub_bytes, aes_inv_sub_bytes, aes_shift_rows, aes_inv_shift_rows, aes_mix_columns,
  aes_inv_mix_columns, load_round_key,
}

-- OpenSSL's AES_KEY: the bytes of `rd_key`, by address, and `rounds`.
pub record AesKey : Type 0 where
  pub rd_key : ℕ → ℕ
  pub rounds : ℕ

-- The middle rounds, `left` of them to go, with `rk` the address of the next round key; the last
-- round follows.
unfoldable pub encrypt_rounds : (ℕ → ℕ) → ℕ → ℕ → V128 → V128
encrypt_rounds rd_key zero rk state =
    v128_xor (aes_shift_rows (aes_sub_bytes state)) (load_round_key rd_key rk)
encrypt_rounds rd_key (suc left) rk state =
    encrypt_rounds rd_key left (rk + 16)
      (v128_xor (aes_mix_columns (aes_shift_rows (aes_sub_bytes state))) (load_round_key rd_key rk))

-- The loop runs for `round` from 1 to `rounds - 1`.
unfoldable pub aes_encrypt_simd : V128 → AesKey → V128
unfolding encrypt_rounds
aes_encrypt_simd input key =
    encrypt_rounds key.rd_key (key.rounds - 1) 16 (v128_xor input (load_round_key key.rd_key 0))

unfoldable pub decrypt_rounds : (ℕ → ℕ) → ℕ → ℕ → V128 → V128
decrypt_rounds rd_key zero rk state =
    v128_xor (aes_inv_shift_rows (aes_inv_sub_bytes state)) (load_round_key rd_key rk)
decrypt_rounds rd_key (suc left) rk state = decrypt_rounds rd_key left (rk + 16) (
    v128_xor (aes_inv_mix_columns (aes_inv_shift_rows (aes_inv_sub_bytes state)))
      (load_round_key rd_key rk))

unfoldable pub aes_decrypt_simd : V128 → AesKey → V128
unfolding decrypt_rounds
aes_decrypt_simd input key =
    decrypt_rounds key.rd_key (key.rounds - 1) 16 (v128_xor input (load_round_key key.rd_key 0))

abbrev pub simd_rounds : ℕ → Bool
simd_rounds n = n == 10 || n == 12 || n == 14

-- __wrap_AES_encrypt, with __real_AES_encrypt as `real`.
unfoldable pub wrap_aes_encrypt : (V128 → AesKey → V128) → V128 → AesKey → V128
wrap_aes_encrypt real input key =
    if simd_rounds key.rounds then aes_encrypt_simd input key else real input key

-- __wrap_AES_decrypt, with __real_AES_decrypt as `real`.
unfoldable pub wrap_aes_decrypt : (V128 → AesKey → V128) → V128 → AesKey → V128
wrap_aes_decrypt real input key =
    if simd_rounds key.rounds then aes_decrypt_simd input key else real input key
