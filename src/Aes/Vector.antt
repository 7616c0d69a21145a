-- ===== src/Aes/Vector.antt =====
-- The v128_t of <wasm_simd128.h> as sixteen byte lanes, and the vector instructions that
-- src/aes_simd.c uses. A store and a load of a whole vector are the vector itself, so the byte
-- arrays `in[16]`, `out[16]` and `b[16]` are vectors too.
use openssl_wasm.Common.{
  ℕ, zero, suc, ◌+◌, ◌*◌, ◌%◌, ◌<◌, bit_xor, bit_and, ◌≡◌, ltb, if◌then◌else◌,
}

pub record V128 : Type 0 where
  pub b0 : ℕ
  pub b1 : ℕ
  pub b2 : ℕ
  pub b3 : ℕ
  pub b4 : ℕ
  pub b5 : ℕ
  pub b6 : ℕ
  pub b7 : ℕ
  pub b8 : ℕ
  pub b9 : ℕ
  pub b10 : ℕ
  pub b11 : ℕ
  pub b12 : ℕ
  pub b13 : ℕ
  pub b14 : ℕ
  pub b15 : ℕ

-- A vector from a function of the lane's index.
abbrev pub lanes : (ℕ → ℕ) → V128
lanes f = record {
  b0 = f 0;
  b1 = f 1;
  b2 = f 2;
  b3 = f 3;
  b4 = f 4;
  b5 = f 5;
  b6 = f 6;
  b7 = f 7;
  b8 = f 8;
  b9 = f 9;
  b10 = f 10;
  b11 = f 11;
  b12 = f 12;
  b13 = f 13;
  b14 = f 14;
  b15 = f 15;
}

-- Lane `i`; an index past the last lane reads zero.
abbrev pub lane : V128 → ℕ → ℕ
lane s zero = s.b0
lane s (suc zero) = s.b1
lane s (suc (suc zero)) = s.b2
lane s (suc (suc (suc zero))) = s.b3
lane s (suc (suc (suc (suc zero)))) = s.b4
lane s (suc (suc (suc (suc (suc zero))))) = s.b5
lane s (suc (suc (suc (suc (suc (suc zero)))))) = s.b6
lane s (suc (suc (suc (suc (suc (suc (suc zero))))))) = s.b7
lane s (suc (suc (suc (suc (suc (suc (suc (suc zero)))))))) = s.b8
lane s (suc (suc (suc (suc (suc (suc (suc (suc (suc zero))))))))) = s.b9
lane s (suc (suc (suc (suc (suc (suc (suc (suc (suc (suc zero)))))))))) = s.b10
lane s (suc (suc (suc (suc (suc (suc (suc (suc (suc (suc (suc zero))))))))))) = s.b11
lane s (suc (suc (suc (suc (suc (suc (suc (suc (suc (suc (suc (suc zero)))))))))))) = s.b12
lane s (suc (suc (suc (suc (suc (suc (suc (suc (suc (suc (suc (suc (suc zero))))))))))))) = s.b13
lane s (suc (suc (suc (suc (suc (suc (suc (suc (suc (suc (suc (suc (suc (suc zero)))))))))))))) =
    s.b14
lane s
      (suc
        (suc (suc (suc (suc (suc (suc (suc (suc (suc (suc (suc (suc (suc (suc zero))))))))))))))) =
    s.b15
lane s
      (suc (
        suc
          (suc (suc (suc (suc (suc (suc (suc (suc (suc (suc (suc (suc (suc (suc _)))))))))))))))) =
    0

-- wasm_i8x16_shuffle(s, s, ...) with indices below 16; the indices come as a function of the lane.
abbrev pub shuffle : V128 → (ℕ → ℕ) → V128
shuffle s index = lanes λ i. lane s (index i)

-- wasm_v128_xor
abbrev pub v128_xor : V128 → V128 → V128
v128_xor s t = lanes λ i. bit_xor (lane s i) (lane t i)

-- wasm_v128_and
abbrev pub v128_and : V128 → V128 → V128
v128_and s t = lanes λ i. bit_and (lane s i) (lane t i)

-- wasm_u8x16_splat
abbrev pub splat : ℕ → V128
splat x = lanes λ _. x

-- wasm_i8x16_shl(s, 1)
abbrev pub shl_one : V128 → V128
shl_one s = lanes λ i. lane s i * 2 % 256

-- wasm_u8x16_gt: all ones in a lane where the test holds.
abbrev pub v128_gt : V128 → V128 → V128
v128_gt s t = lanes λ i. if ltb (lane t i) (lane s i) then 0xff else 0

-- wasm_v128_load at a byte address of a memory.
abbrev pub v128_load : (ℕ → ℕ) → ℕ → V128
v128_load memory at = lanes λ i. memory (at + i)

-- Every lane holds a byte.
pub record IsBytes (s : V128) : Type 0 where
  pub l0 : s.b0 < 256
  pub l1 : s.b1 < 256
  pub l2 : s.b2 < 256
  pub l3 : s.b3 < 256
  pub l4 : s.b4 < 256
  pub l5 : s.b5 < 256
  pub l6 : s.b6 < 256
  pub l7 : s.b7 < 256
  pub l8 : s.b8 < 256
  pub l9 : s.b9 < 256
  pub l10 : s.b10 < 256
  pub l11 : s.b11 < 256
  pub l12 : s.b12 < 256
  pub l13 : s.b13 < 256
  pub l14 : s.b14 < 256
  pub l15 : s.b15 < 256

-- Vectors with equal lanes are equal.
pub V128-ext :
    {s t : V128}
    → s.b0 ≡ t.b0
    → s.b1 ≡ t.b1
    → s.b2 ≡ t.b2
    → s.b3 ≡ t.b3
    → s.b4 ≡ t.b4
    → s.b5 ≡ t.b5
    → s.b6 ≡ t.b6
    → s.b7 ≡ t.b7
    → s.b8 ≡ t.b8
    → s.b9 ≡ t.b9
    → s.b10 ≡ t.b10
    → s.b11 ≡ t.b11
    → s.b12 ≡ t.b12
    → s.b13 ≡ t.b13
    → s.b14 ≡ t.b14
    → s.b15 ≡ t.b15
    → s ≡ t
V128-ext e0 e1 e2 e3 e4 e5 e6 e7 e8 e9 e10 e11 e12 e13 e14 e15 = λ i. record {
  b0 = e0 i;
  b1 = e1 i;
  b2 = e2 i;
  b3 = e3 i;
  b4 = e4 i;
  b5 = e5 i;
  b6 = e6 i;
  b7 = e7 i;
  b8 = e8 i;
  b9 = e9 i;
  b10 = e10 i;
  b11 = e11 i;
  b12 = e12 i;
  b13 = e13 i;
  b14 = e14 i;
  b15 = e15 i;
}
