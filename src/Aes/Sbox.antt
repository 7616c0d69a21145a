-- ===== src/Aes/Sbox.antt =====
-- The substitution tables of src/aes_simd.c against their definition in FIPS 197, and the steps
-- that use them.
use openssl_wasm.Common.{
  all_below, all_below_sound, ℕ, zero, suc, ◌/◌, ◌%◌, ◌+◌, ◌*◌, ◌<◌, bit_xor, ◌≡◌, refl, Bool, true,
  ◌&&◌, List, [], ◌∷◌, arith, ltb, ◌==◌, ==_iff, get_or,
}
use openssl_wasm.Aes.Field.{times}
use openssl_wasm.Aes.Tables.{aes_sbox, aes_inv_sbox}
use openssl_wasm.Aes.Vector.{V128, IsBytes, V128-ext}
use openssl_wasm.Aes.Round.{aes_sub_bytes, aes_inv_sub_bytes, aes_shift_rows, aes_inv_shift_rows}

-- The eight binary digits of a byte, lowest first.
abbrev bits : ℕ → ℕ → List Bool
bits zero x = []
bits (suc n) x = (x % 2 == 1) ∷ bits n (x / 2)

-- The product in GF(2^8).
abbrev pub gf_mul : ℕ → ℕ → ℕ
gf_mul a b = times (bits 8 a) b

-- The inverse in GF(2^8), the power 254, with 0 to itself.
abbrev pub gf_inv : ℕ → ℕ
gf_inv a =
    let a2 = gf_mul a a in
    let a3 = gf_mul a2 a in
    let a12 = gf_mul (gf_mul a3 a3) (gf_mul a3 a3) in
    let a15 = gf_mul a12 a3 in
    let a60 = gf_mul (gf_mul a15 a15) (gf_mul a15 a15) in
    let a240 = gf_mul (gf_mul a60 a60) (gf_mul a60 a60) in gf_mul (gf_mul a240 a12) a2

-- The byte turned left by one binary digit.
abbrev rotl : ℕ → ℕ
rotl x = x * 2 % 256 + x / 128

-- FIPS 197, 5.1.1: the inverse, then the affine map over GF(2).
abbrev pub fips_sub_byte : ℕ → ℕ
fips_sub_byte x =
    let y = gf_inv x in
    let y1 = rotl y in
    let y2 = rotl y1 in
    let y3 = rotl y2 in
    let y4 = rotl y3 in bit_xor (bit_xor (bit_xor y y1) (bit_xor y2 y3)) (bit_xor y4 0x63)

sbox_test : ℕ → Bool
sbox_test x = get_or aes_sbox x 0 == fips_sub_byte x

sbox_table : all_below 256 sbox_test ≡ true
unfolding sbox_test
sbox_table = refl

-- The table holds the S-box of FIPS 197: the inverse in the field, then the affine map.
pub aes_sbox_lem : (x : ℕ) → x < 256 → get_or aes_sbox x 0 ≡ fips_sub_byte x
unfolding sbox_test
aes_sbox_lem x h =
    (==_iff (get_or aes_sbox x 0) (fips_sub_byte x)).0
      (all_below_sound 256 sbox_test x sbox_table h)

inverse_test : ℕ → Bool
inverse_test x =
    get_or aes_inv_sbox (get_or aes_sbox x 0) 0 == x
    && ltb (get_or aes_sbox x 0) 256
    && ltb (get_or aes_inv_sbox x 0) 256

inverse_table : all_below 256 inverse_test ≡ true
unfolding inverse_test
inverse_table = refl

three_tests : (u v x y z : ℕ) → (u == v && ltb x y && ltb z y) ≡ true → (u ≡ v) × (x < y) × (z < y)
three_tests u v x y z h = ground arith

table_facts :
    (x : ℕ)
    → x < 256
    → (get_or aes_inv_sbox (get_or aes_sbox x 0) 0 ≡ x)
      × (get_or aes_sbox x 0 < 256)
      × (get_or aes_inv_sbox x 0 < 256)
unfolding inverse_test
table_facts x h =
    three_tests (get_or aes_inv_sbox (get_or aes_sbox x 0) 0) x (get_or aes_sbox x 0) 256
      (get_or aes_inv_sbox x 0) (all_below_sound 256 inverse_test x inverse_table h)

-- Undoing the byte substitution and the row shift of a round gives the vector back.
pub inv_shift-inv_sub-shift-sub :
    (s : V128)
    → IsBytes s
    → aes_inv_shift_rows (aes_inv_sub_bytes (aes_shift_rows (aes_sub_bytes s))) ≡ s
unfolding aes_inv_shift_rows aes_inv_sub_bytes aes_shift_rows aes_sub_bytes
inv_shift-inv_sub-shift-sub s h =
    V128-ext (table_facts s.b0 h.l0).0 (table_facts s.b1 h.l1).0 (table_facts s.b2 h.l2).0
      (table_facts s.b3 h.l3).0 (table_facts s.b4 h.l4).0 (table_facts s.b5 h.l5).0
      (table_facts s.b6 h.l6).0 (table_facts s.b7 h.l7).0 (table_facts s.b8 h.l8).0
      (table_facts s.b9 h.l9).0 (table_facts s.b10 h.l10).0 (table_facts s.b11 h.l11).0
      (table_facts s.b12 h.l12).0 (table_facts s.b13 h.l13).0 (table_facts s.b14 h.l14).0
      (table_facts s.b15 h.l15).0

pub shift-sub-IsBytes : (s : V128) → IsBytes s → IsBytes (aes_shift_rows (aes_sub_bytes s))
unfolding aes_shift_rows aes_sub_bytes
shift-sub-IsBytes s h = record {
  l0 = (table_facts s.b0 h.l0).1;
  l1 = (table_facts s.b5 h.l5).1;
  l2 = (table_facts s.b10 h.l10).1;
  l3 = (table_facts s.b15 h.l15).1;
  l4 = (table_facts s.b4 h.l4).1;
  l5 = (table_facts s.b9 h.l9).1;
  l6 = (table_facts s.b14 h.l14).1;
  l7 = (table_facts s.b3 h.l3).1;
  l8 = (table_facts s.b8 h.l8).1;
  l9 = (table_facts s.b13 h.l13).1;
  l10 = (table_facts s.b2 h.l2).1;
  l11 = (table_facts s.b7 h.l7).1;
  l12 = (table_facts s.b12 h.l12).1;
  l13 = (table_facts s.b1 h.l1).1;
  l14 = (table_facts s.b6 h.l6).1;
  l15 = (table_facts s.b11 h.l11).1;
}
