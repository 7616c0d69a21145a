-- ===== src/Tests/Aes.antt =====
-- The AES model at concrete blocks and keys.
use openssl_wasm.Common.{
  ℕ, zero, suc, ◌*◌, ◌-◌, ◌≤◌, ◌<◌, ◌≡◌, refl, ap, ◌∙◌, Bool, true, ◌&&◌, ltb, List, [], ◌∷◌,
  get_or, arith,
}
use openssl_wasm.Aes.Vector.{V128, IsBytes}
use openssl_wasm.Aes.Round.{
  aes_sub_bytes, aes_inv_sub_bytes, aes_shift_rows, aes_inv_shift_rows, aes_xtime, rot_col_1,
  rot_col_2, rot_col_3, aes_mix_columns, aes_inv_mix_columns, load_round_key,
}
use openssl_wasm.Aes.Tables.{aes_sbox}
use openssl_wasm.Aes.Block.{
  AesKey, encrypt_rounds, decrypt_rounds, aes_encrypt_simd, aes_decrypt_simd, wrap_aes_encrypt,
  wrap_aes_decrypt,
}
use openssl_wasm.Aes.Columns.{
  fips_mix_columns, fips_inv_mix_columns, aes_mix_columns_lem, aes_inv_mix_columns_lem,
  aes_inv_mix_columns-mix,
}
use openssl_wasm.Aes.Sbox.{fips_sub_byte, aes_sbox_lem}
use openssl_wasm.Aes.Inverse.{IsInverseKey, aes_decrypt_simd-encrypt}
use openssl_wasm.Aes.Wrap.{wrap_aes_decrypt-encrypt}

-- A key of FIPS 197, appendix B, as OpenSSL's AES_set_encrypt_key stores its schedule on a
-- little-endian machine, and the schedule of AES_set_decrypt_key.
abbrev enc_bytes : List ℕ
enc_bytes =
    22 ∷ 21 ∷ 126 ∷ 43 ∷ 166 ∷ 210 ∷ 174 ∷ 40 ∷ 136 ∷ 21 ∷ 247 ∷ 171 ∷ 60 ∷ 79 ∷ 207 ∷ 9 ∷ 23 ∷ 254
    ∷ 250 ∷ 160 ∷ 177 ∷ 44 ∷ 84 ∷ 136 ∷ 57 ∷ 57 ∷ 163 ∷ 35 ∷ 5 ∷ 118 ∷ 108 ∷ 42 ∷ 242 ∷ 149 ∷ 194
    ∷ 242 ∷ 67 ∷ 185 ∷ 150 ∷ 122 ∷ 122 ∷ 128 ∷ 53 ∷ 89 ∷ 127 ∷ 246 ∷ 89 ∷ 115 ∷ 125 ∷ 71 ∷ 128 ∷ 61
    ∷ 62 ∷ 254 ∷ 22 ∷ 71 ∷ 68 ∷ 126 ∷ 35 ∷ 30 ∷ 59 ∷ 136 ∷ 122 ∷ 109 ∷ 65 ∷ 165 ∷ 68 ∷ 239 ∷ 127
    ∷ 91 ∷ 82 ∷ 168 ∷ 59 ∷ 37 ∷ 113 ∷ 182 ∷ 0 ∷ 173 ∷ 11 ∷ 219 ∷ 248 ∷ 198 ∷ 209 ∷ 212 ∷ 135 ∷ 157
    ∷ 131 ∷ 124 ∷ 188 ∷ 184 ∷ 242 ∷ 202 ∷ 188 ∷ 21 ∷ 249 ∷ 17 ∷ 122 ∷ 163 ∷ 136 ∷ 109 ∷ 253 ∷ 62
    ∷ 11 ∷ 17 ∷ 65 ∷ 134 ∷ 249 ∷ 219 ∷ 253 ∷ 147 ∷ 0 ∷ 202 ∷ 14 ∷ 247 ∷ 84 ∷ 78 ∷ 243 ∷ 201 ∷ 95
    ∷ 95 ∷ 178 ∷ 79 ∷ 166 ∷ 132 ∷ 79 ∷ 220 ∷ 166 ∷ 78 ∷ 33 ∷ 115 ∷ 210 ∷ 234 ∷ 210 ∷ 186 ∷ 141 ∷ 181
    ∷ 96 ∷ 245 ∷ 43 ∷ 49 ∷ 47 ∷ 41 ∷ 141 ∷ 127 ∷ 243 ∷ 102 ∷ 119 ∷ 172 ∷ 33 ∷ 220 ∷ 250 ∷ 25 ∷ 65
    ∷ 41 ∷ 209 ∷ 40 ∷ 110 ∷ 0 ∷ 92 ∷ 87 ∷ 168 ∷ 249 ∷ 20 ∷ 208 ∷ 137 ∷ 37 ∷ 238 ∷ 201 ∷ 200 ∷ 12
    ∷ 63 ∷ 225 ∷ 166 ∷ 12 ∷ 99 ∷ 182 ∷ []

abbrev dec_bytes : List ℕ
dec_bytes =
    168 ∷ 249 ∷ 20 ∷ 208 ∷ 137 ∷ 37 ∷ 238 ∷ 201 ∷ 200 ∷ 12 ∷ 63 ∷ 225 ∷ 166 ∷ 12 ∷ 99 ∷ 182 ∷ 99
    ∷ 90 ∷ 123 ∷ 12 ∷ 254 ∷ 234 ∷ 25 ∷ 19 ∷ 144 ∷ 136 ∷ 57 ∷ 176 ∷ 180 ∷ 251 ∷ 76 ∷ 102 ∷ 90 ∷ 146
    ∷ 125 ∷ 223 ∷ 157 ∷ 176 ∷ 98 ∷ 31 ∷ 110 ∷ 98 ∷ 32 ∷ 163 ∷ 36 ∷ 115 ∷ 117 ∷ 214 ∷ 71 ∷ 118 ∷ 192
    ∷ 18 ∷ 199 ∷ 34 ∷ 31 ∷ 192 ∷ 243 ∷ 210 ∷ 66 ∷ 188 ∷ 74 ∷ 17 ∷ 85 ∷ 117 ∷ 118 ∷ 216 ∷ 252 ∷ 110
    ∷ 128 ∷ 84 ∷ 223 ∷ 210 ∷ 52 ∷ 240 ∷ 93 ∷ 124 ∷ 185 ∷ 195 ∷ 23 ∷ 201 ∷ 252 ∷ 10 ∷ 163 ∷ 110 ∷ 246
    ∷ 140 ∷ 35 ∷ 188 ∷ 180 ∷ 164 ∷ 130 ∷ 174 ∷ 141 ∷ 51 ∷ 74 ∷ 181 ∷ 19 ∷ 68 ∷ 136 ∷ 144 ∷ 10 ∷ 134
    ∷ 128 ∷ 210 ∷ 66 ∷ 40 ∷ 161 ∷ 18 ∷ 57 ∷ 151 ∷ 200 ∷ 27 ∷ 247 ∷ 19 ∷ 31 ∷ 124 ∷ 25 ∷ 194 ∷ 8 ∷ 66
    ∷ 72 ∷ 174 ∷ 33 ∷ 192 ∷ 123 ∷ 191 ∷ 105 ∷ 9 ∷ 235 ∷ 5 ∷ 117 ∷ 204 ∷ 238 ∷ 209 ∷ 23 ∷ 62 ∷ 81
    ∷ 108 ∷ 41 ∷ 130 ∷ 51 ∷ 17 ∷ 72 ∷ 201 ∷ 167 ∷ 8 ∷ 55 ∷ 43 ∷ 5 ∷ 212 ∷ 98 ∷ 242 ∷ 191 ∷ 189 ∷ 62
    ∷ 188 ∷ 98 ∷ 125 ∷ 97 ∷ 75 ∷ 22 ∷ 21 ∷ 126 ∷ 43 ∷ 166 ∷ 210 ∷ 174 ∷ 40 ∷ 136 ∷ 21 ∷ 247 ∷ 171
    ∷ 60 ∷ 79 ∷ 207 ∷ 9 ∷ []

abbrev enc_key : AesKey
enc_key = record { rd_key = λ a. get_or enc_bytes a 0; rounds = 10 }

abbrev dec_key : AesKey
dec_key = record { rd_key = λ a. get_or dec_bytes a 0; rounds = 10 }

-- The block of that appendix and its encryption.
abbrev block : V128
block = record {
  b0 = 50;
  b1 = 67;
  b2 = 246;
  b3 = 168;
  b4 = 136;
  b5 = 90;
  b6 = 48;
  b7 = 141;
  b8 = 49;
  b9 = 49;
  b10 = 152;
  b11 = 162;
  b12 = 224;
  b13 = 55;
  b14 = 7;
  b15 = 52;
}

abbrev encrypted : V128
encrypted = record {
  b0 = 57;
  b1 = 37;
  b2 = 132;
  b3 = 29;
  b4 = 2;
  b5 = 220;
  b6 = 9;
  b7 = 251;
  b8 = 220;
  b9 = 17;
  b10 = 133;
  b11 = 151;
  b12 = 25;
  b13 = 106;
  b14 = 11;
  b15 = 50;
}

encrypt_test : aes_encrypt_simd block enc_key ≡ encrypted
unfolding aes_encrypt_simd encrypt_rounds aes_sub_bytes aes_shift_rows aes_mix_columns
    load_round_key aes_xtime rot_col_1 rot_col_2 rot_col_3
encrypt_test = refl

decrypt_test : aes_decrypt_simd encrypted dec_key ≡ block
unfolding aes_decrypt_simd decrypt_rounds aes_inv_sub_bytes aes_inv_shift_rows aes_inv_mix_columns
    aes_mix_columns load_round_key aes_xtime rot_col_1 rot_col_2 rot_col_3
decrypt_test = refl

abbrev bytes_test : List ℕ → Bool
bytes_test [] = true
bytes_test (x ∷ xs) = ltb x 256 && bytes_test xs

get_or-lt : (xs : List ℕ) (a : ℕ) → bytes_test xs ≡ true → get_or xs a 0 < 256
get_or-lt [] a h = omega arith
get_or-lt (x ∷ xs) zero h = ground arith
get_or-lt (x ∷ xs) (suc a) h = get_or-lt xs a (ground arith)

enc_key-lt : (a : ℕ) → enc_key.rd_key a < 256
enc_key-lt a = get_or-lt enc_bytes a refl

dec_key-middle :
    (i : ℕ)
    → 1 ≤ i
    → i < 10
    → load_round_key dec_key.rd_key (16 * i)
      ≡ aes_inv_mix_columns (load_round_key enc_key.rd_key (16 * (10 - i)))
unfolding load_round_key aes_inv_mix_columns aes_mix_columns aes_xtime rot_col_1 rot_col_2 rot_col_3
dec_key-middle zero h k = absurd (omega arith)
dec_key-middle (suc zero) h k = refl
dec_key-middle (suc (suc zero)) h k = refl
dec_key-middle (suc (suc (suc zero))) h k = refl
dec_key-middle (suc (suc (suc (suc zero)))) h k = refl
dec_key-middle (suc (suc (suc (suc (suc zero))))) h k = refl
dec_key-middle (suc (suc (suc (suc (suc (suc zero)))))) h k = refl
dec_key-middle (suc (suc (suc (suc (suc (suc (suc zero))))))) h k = refl
dec_key-middle (suc (suc (suc (suc (suc (suc (suc (suc zero)))))))) h k = refl
dec_key-middle (suc (suc (suc (suc (suc (suc (suc (suc (suc zero))))))))) h k = refl
dec_key-middle (suc (suc (suc (suc (suc (suc (suc (suc (suc (suc n)))))))))) h k =
    absurd (omega arith)

keys-IsInverseKey : IsInverseKey enc_key dec_key
unfolding load_round_key
keys-IsInverseKey = record {
  same_rounds = refl;
  first = refl;
  middle = λ i j h k e.
      let rest : 10 - i ≡ j = omega arith in
      dec_key-middle i h (omega arith)
      ∙ ap (λ n. aes_inv_mix_columns (load_round_key enc_key.rd_key (16 * n))) rest;
  last = refl;
}

block-IsBytes : IsBytes block
block-IsBytes = record {
  l0 = omega arith;
  l1 = omega arith;
  l2 = omega arith;
  l3 = omega arith;
  l4 = omega arith;
  l5 = omega arith;
  l6 = omega arith;
  l7 = omega arith;
  l8 = omega arith;
  l9 = omega arith;
  l10 = omega arith;
  l11 = omega arith;
  l12 = omega arith;
  l13 = omega arith;
  l14 = omega arith;
  l15 = omega arith;
}

wrap_aes_decrypt-encrypt_example :
    wrap_aes_decrypt (λ s k. s) (wrap_aes_encrypt (λ s k. s) block enc_key) dec_key ≡ block
wrap_aes_decrypt-encrypt_example =
    wrap_aes_decrypt-encrypt (λ s k. s) (λ s k. s) enc_key dec_key block keys-IsInverseKey
      enc_key-lt block-IsBytes (λ h. refl)

aes_decrypt_simd-encrypt_example : aes_decrypt_simd (aes_encrypt_simd block enc_key) dec_key ≡ block
aes_decrypt_simd-encrypt_example =
    aes_decrypt_simd-encrypt enc_key dec_key keys-IsInverseKey enc_key-lt block block-IsBytes
      (omega arith)

aes_mix_columns_example : aes_mix_columns block ≡ fips_mix_columns block
aes_mix_columns_example = aes_mix_columns_lem block block-IsBytes

aes_inv_mix_columns_example : aes_inv_mix_columns block ≡ fips_inv_mix_columns block
aes_inv_mix_columns_example = aes_inv_mix_columns_lem block block-IsBytes

aes_inv_mix_columns-mix_example : aes_inv_mix_columns (aes_mix_columns block) ≡ block
aes_inv_mix_columns-mix_example = aes_inv_mix_columns-mix block block-IsBytes

aes_sbox_example : get_or aes_sbox 83 0 ≡ fips_sub_byte 83
aes_sbox_example = aes_sbox_lem 83 (omega arith)
