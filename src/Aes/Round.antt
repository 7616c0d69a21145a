-- ===== src/Aes/Round.antt =====
-- The steps of a round of src/aes_simd.c: SubBytes, ShiftRows, MixColumns and their inverses.
use openssl_wasm.Common.{ℕ, List, [], ◌∷◌, get_or}
use openssl_wasm.Aes.Vector.{
  V128, lanes, lane, shuffle, v128_xor, v128_and, splat, shl_one, v128_gt, v128_load,
}
use openssl_wasm.Aes.Tables.{aes_sbox, aes_inv_sbox}

-- An index list as the function of the lane that `shuffle` takes.
abbrev indices : List ℕ → ℕ → ℕ
indices l i = get_or l i 0

-- The loop writes b[i] for each i below 16 and reads no other element.
unfoldable pub aes_sub_bytes : V128 → V128
aes_sub_bytes state = lanes λ i. get_or aes_sbox (lane state i) 0

unfoldable pub aes_inv_sub_bytes : V128 → V128
aes_inv_sub_bytes state = lanes λ i. get_or aes_inv_sbox (lane state i) 0

unfoldable pub aes_shift_rows : V128 → V128
aes_shift_rows state =
    shuffle state
      (indices (0 ∷ 5 ∷ 10 ∷ 15 ∷ 4 ∷ 9 ∷ 14 ∷ 3 ∷ 8 ∷ 13 ∷ 2 ∷ 7 ∷ 12 ∷ 1 ∷ 6 ∷ 11 ∷ []))

unfoldable pub aes_inv_shift_rows : V128 → V128
aes_inv_shift_rows state =
    shuffle state
      (indices (0 ∷ 13 ∷ 10 ∷ 7 ∷ 4 ∷ 1 ∷ 14 ∷ 11 ∷ 8 ∷ 5 ∷ 2 ∷ 15 ∷ 12 ∷ 9 ∷ 6 ∷ 3 ∷ []))

unfoldable pub aes_xtime : V128 → V128
aes_xtime x =
    let shl = shl_one x in
    let high = v128_gt x (splat 0x7f) in
    let reduce = v128_and high (splat 0x1b) in v128_xor shl reduce

unfoldable pub rot_col_1 : V128 → V128
rot_col_1 s =
    shuffle s (indices (1 ∷ 2 ∷ 3 ∷ 0 ∷ 5 ∷ 6 ∷ 7 ∷ 4 ∷ 9 ∷ 10 ∷ 11 ∷ 8 ∷ 13 ∷ 14 ∷ 15 ∷ 12 ∷ []))

unfoldable pub rot_col_2 : V128 → V128
rot_col_2 s =
    shuffle s (indices (2 ∷ 3 ∷ 0 ∷ 1 ∷ 6 ∷ 7 ∷ 4 ∷ 5 ∷ 10 ∷ 11 ∷ 8 ∷ 9 ∷ 14 ∷ 15 ∷ 12 ∷ 13 ∷ []))

unfoldable pub rot_col_3 : V128 → V128
rot_col_3 s =
    shuffle s (indices (3 ∷ 0 ∷ 1 ∷ 2 ∷ 7 ∷ 4 ∷ 5 ∷ 6 ∷ 11 ∷ 8 ∷ 9 ∷ 10 ∷ 15 ∷ 12 ∷ 13 ∷ 14 ∷ []))

unfoldable pub aes_mix_columns : V128 → V128
unfolding aes_xtime rot_col_1 rot_col_2 rot_col_3
aes_mix_columns s =
    let t = aes_xtime s in
    let s_rot1 = rot_col_1 s in
    let s_rot2 = rot_col_2 s in
    let s_rot3 = rot_col_3 s in
    let t_rot1 = rot_col_1 t in
    v128_xor (v128_xor (v128_xor (v128_xor t t_rot1) s_rot1) s_rot2) s_rot3

unfoldable pub aes_inv_mix_columns : V128 → V128
unfolding aes_mix_columns
aes_inv_mix_columns s =
    let mc = aes_mix_columns s in
    let s_rot1 = rot_col_1 s in
    let s_rot2 = rot_col_2 s in
    let s_rot3 = rot_col_3 s in
    let col_sum = v128_xor (v128_xor (v128_xor s s_rot1) s_rot2) s_rot3 in
    let alt_sum = v128_xor s s_rot2 in
    let four_alt = aes_xtime (aes_xtime alt_sum) in
    let eight_col = aes_xtime (aes_xtime (aes_xtime col_sum)) in
    let m_diff = v128_xor eight_col four_alt in v128_xor mc m_diff

-- `rk` is the address of the round key in the key's memory.
unfoldable pub load_round_key : (ℕ → ℕ) → ℕ → V128
load_round_key memory rk =
    shuffle (v128_load memory rk)
      (indices (3 ∷ 2 ∷ 1 ∷ 0 ∷ 7 ∷ 6 ∷ 5 ∷ 4 ∷ 11 ∷ 10 ∷ 9 ∷ 8 ∷ 15 ∷ 14 ∷ 13 ∷ 12 ∷ []))
