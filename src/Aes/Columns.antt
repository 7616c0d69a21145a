-- ===== src/Aes/Columns.antt =====
-- MixColumns and its inverse against the matrices of FIPS 197.
use openssl_wasm.Common.{
  ℕ, zero, suc, ◌/◌, ◌%◌, ◌+◌, ◌*◌, ◌≡◌, sym, ◌∙◌, ap₂, Bool, true, false, List, [], ◌∷◌,
}
use openssl_wasm.Common.Bits.{xor-zero, zero-xor}
use openssl_wasm.Aes.Field.{xor-lt}
use openssl_wasm.Aes.Linear.{
  Column, IsByteColumn, Expr, x0, x1, x2, x3, plus, dbl, eval, Form, combine, combine-xor,
  combine-lt, eval-eq-combine,
}
use openssl_wasm.Aes.Vector.{V128, lanes, lane, v128_xor, IsBytes, V128-ext}
use openssl_wasm.Aes.Round.{aes_mix_columns, aes_inv_mix_columns}

abbrev pub column : V128 → ℕ → Column
column s c = record {
  r0 = lane s (4 * c);
  r1 = lane s (4 * c + 1);
  r2 = lane s (4 * c + 2);
  r3 = lane s (4 * c + 3);
}

-- Row `r` of the circulant matrix whose first row is `a b c d`.
abbrev row_form : (a b c d : List Bool) → ℕ → Form
row_form a b c d zero = record { p0 = a; p1 = b; p2 = c; p3 = d }
row_form a b c d (suc zero) = record { p0 = d; p1 = a; p2 = b; p3 = c }
row_form a b c d (suc (suc zero)) = record { p0 = c; p1 = d; p2 = a; p3 = b }
row_form a b c d (suc (suc (suc r))) = record { p0 = b; p1 = c; p2 = d; p3 = a }

-- The matrix, applied to each column.
abbrev pub circulant : (a b c d : List Bool) → V128 → V128
circulant a b c d s = lanes λ i. combine (column s (i / 4)) (row_form a b c d (i % 4))

-- The coefficients of FIPS 197, as polynomials: {03} is x + 1.
abbrev pub by_01 : List Bool
by_01 = true ∷ []

abbrev pub by_02 : List Bool
by_02 = false ∷ true ∷ []

abbrev pub by_03 : List Bool
by_03 = true ∷ true ∷ []

abbrev pub by_09 : List Bool
by_09 = true ∷ false ∷ false ∷ true ∷ []

abbrev pub by_0b : List Bool
by_0b = true ∷ true ∷ false ∷ true ∷ []

abbrev pub by_0d : List Bool
by_0d = true ∷ false ∷ true ∷ true ∷ []

abbrev pub by_0e : List Bool
by_0e = false ∷ true ∷ true ∷ true ∷ []

-- FIPS 197, 5.1.3.
abbrev pub fips_mix_columns : V128 → V128
fips_mix_columns = circulant by_02 by_03 by_01 by_01

-- FIPS 197, 5.3.3.
abbrev pub fips_inv_mix_columns : V128 → V128
fips_inv_mix_columns = circulant by_0e by_0b by_0d by_09

column0-IsByteColumn : {s : V128} → IsBytes s → IsByteColumn (column s 0)
column0-IsByteColumn h = record { c0 = h.l0; c1 = h.l1; c2 = h.l2; c3 = h.l3 }

column1-IsByteColumn : {s : V128} → IsBytes s → IsByteColumn (column s 1)
column1-IsByteColumn h = record { c0 = h.l4; c1 = h.l5; c2 = h.l6; c3 = h.l7 }

column2-IsByteColumn : {s : V128} → IsBytes s → IsByteColumn (column s 2)
column2-IsByteColumn h = record { c0 = h.l8; c1 = h.l9; c2 = h.l10; c3 = h.l11 }

column3-IsByteColumn : {s : V128} → IsBytes s → IsByteColumn (column s 3)
column3-IsByteColumn h = record { c0 = h.l12; c1 = h.l13; c2 = h.l14; c3 = h.l15 }

-- The sums that the code makes for a byte, from its row on.
abbrev mix_row : (a b c d : Expr) → Expr
mix_row a b c d = plus (plus (plus (plus (dbl a) (dbl b)) b) c) d

abbrev inv_mix_row : (a b c d : Expr) → Expr
inv_mix_row a b c d =
    plus (mix_row a b c d)
      (plus (dbl (dbl (dbl (plus (plus (plus a b) c) d)))) (dbl (dbl (plus a c))))

-- The four rows of a column of `aes_inv_mix_columns (aes_mix_columns s)`.
abbrev both_row : (a b c d : Expr) → Expr
both_row a b c d =
    inv_mix_row (mix_row a b c d) (mix_row b c d a) (mix_row c d a b) (mix_row d a b c)

-- `aes_mix_columns` is the MixColumns matrix of FIPS 197 on every vector of bytes.
pub aes_mix_columns_lem : (s : V128) → IsBytes s → aes_mix_columns s ≡ fips_mix_columns s
unfolding aes_mix_columns
aes_mix_columns_lem s h =
    V128-ext (eval-eq-combine (column s 0) (column0-IsByteColumn h) (mix_row x0 x1 x2 x3))
      (eval-eq-combine (column s 0) (column0-IsByteColumn h) (mix_row x1 x2 x3 x0))
      (eval-eq-combine (column s 0) (column0-IsByteColumn h) (mix_row x2 x3 x0 x1))
      (eval-eq-combine (column s 0) (column0-IsByteColumn h) (mix_row x3 x0 x1 x2))
      (eval-eq-combine (column s 1) (column1-IsByteColumn h) (mix_row x0 x1 x2 x3))
      (eval-eq-combine (column s 1) (column1-IsByteColumn h) (mix_row x1 x2 x3 x0))
      (eval-eq-combine (column s 1) (column1-IsByteColumn h) (mix_row x2 x3 x0 x1))
      (eval-eq-combine (column s 1) (column1-IsByteColumn h) (mix_row x3 x0 x1 x2))
      (eval-eq-combine (column s 2) (column2-IsByteColumn h) (mix_row x0 x1 x2 x3))
      (eval-eq-combine (column s 2) (column2-IsByteColumn h) (mix_row x1 x2 x3 x0))
      (eval-eq-combine (column s 2) (column2-IsByteColumn h) (mix_row x2 x3 x0 x1))
      (eval-eq-combine (column s 2) (column2-IsByteColumn h) (mix_row x3 x0 x1 x2))
      (eval-eq-combine (column s 3) (column3-IsByteColumn h) (mix_row x0 x1 x2 x3))
      (eval-eq-combine (column s 3) (column3-IsByteColumn h) (mix_row x1 x2 x3 x0))
      (eval-eq-combine (column s 3) (column3-IsByteColumn h) (mix_row x2 x3 x0 x1))
      (eval-eq-combine (column s 3) (column3-IsByteColumn h) (mix_row x3 x0 x1 x2))

-- `aes_inv_mix_columns`, computed from `aes_mix_columns` by two corrections, is the InvMixColumns
-- matrix of FIPS 197 on every vector of bytes.
pub aes_inv_mix_columns_lem :
    (s : V128) → IsBytes s → aes_inv_mix_columns s ≡ fips_inv_mix_columns s
unfolding aes_inv_mix_columns
aes_inv_mix_columns_lem s h =
    V128-ext (eval-eq-combine (column s 0) (column0-IsByteColumn h) (inv_mix_row x0 x1 x2 x3))
      (eval-eq-combine (column s 0) (column0-IsByteColumn h) (inv_mix_row x1 x2 x3 x0))
      (eval-eq-combine (column s 0) (column0-IsByteColumn h) (inv_mix_row x2 x3 x0 x1))
      (eval-eq-combine (column s 0) (column0-IsByteColumn h) (inv_mix_row x3 x0 x1 x2))
      (eval-eq-combine (column s 1) (column1-IsByteColumn h) (inv_mix_row x0 x1 x2 x3))
      (eval-eq-combine (column s 1) (column1-IsByteColumn h) (inv_mix_row x1 x2 x3 x0))
      (eval-eq-combine (column s 1) (column1-IsByteColumn h) (inv_mix_row x2 x3 x0 x1))
      (eval-eq-combine (column s 1) (column1-IsByteColumn h) (inv_mix_row x3 x0 x1 x2))
      (eval-eq-combine (column s 2) (column2-IsByteColumn h) (inv_mix_row x0 x1 x2 x3))
      (eval-eq-combine (column s 2) (column2-IsByteColumn h) (inv_mix_row x1 x2 x3 x0))
      (eval-eq-combine (column s 2) (column2-IsByteColumn h) (inv_mix_row x2 x3 x0 x1))
      (eval-eq-combine (column s 2) (column2-IsByteColumn h) (inv_mix_row x3 x0 x1 x2))
      (eval-eq-combine (column s 3) (column3-IsByteColumn h) (inv_mix_row x0 x1 x2 x3))
      (eval-eq-combine (column s 3) (column3-IsByteColumn h) (inv_mix_row x1 x2 x3 x0))
      (eval-eq-combine (column s 3) (column3-IsByteColumn h) (inv_mix_row x2 x3 x0 x1))
      (eval-eq-combine (column s 3) (column3-IsByteColumn h) (inv_mix_row x3 x0 x1 x2))

both_row0 : (s : Column) → IsByteColumn s → eval s (both_row x0 x1 x2 x3) ≡ s.r0
both_row0 s h = eval-eq-combine s h (both_row x0 x1 x2 x3) ∙ simp xor-zero

both_row1 : (s : Column) → IsByteColumn s → eval s (both_row x1 x2 x3 x0) ≡ s.r1
both_row1 s h = eval-eq-combine s h (both_row x1 x2 x3 x0) ∙ simp (xor-zero, zero-xor)

both_row2 : (s : Column) → IsByteColumn s → eval s (both_row x2 x3 x0 x1) ≡ s.r2
both_row2 s h = eval-eq-combine s h (both_row x2 x3 x0 x1) ∙ simp (xor-zero, zero-xor)

both_row3 : (s : Column) → IsByteColumn s → eval s (both_row x3 x0 x1 x2) ≡ s.r3
both_row3 s h = eval-eq-combine s h (both_row x3 x0 x1 x2) ∙ simp (xor-zero, zero-xor)

-- InvMixColumns undoes MixColumns on every vector of bytes.
pub aes_inv_mix_columns-mix : (s : V128) → IsBytes s → aes_inv_mix_columns (aes_mix_columns s) ≡ s
unfolding aes_inv_mix_columns
aes_inv_mix_columns-mix s h =
    V128-ext (both_row0 (column s 0) (column0-IsByteColumn h))
      (both_row1 (column s 0) (column0-IsByteColumn h))
      (both_row2 (column s 0) (column0-IsByteColumn h))
      (both_row3 (column s 0) (column0-IsByteColumn h))
      (both_row0 (column s 1) (column1-IsByteColumn h))
      (both_row1 (column s 1) (column1-IsByteColumn h))
      (both_row2 (column s 1) (column1-IsByteColumn h))
      (both_row3 (column s 1) (column1-IsByteColumn h))
      (both_row0 (column s 2) (column2-IsByteColumn h))
      (both_row1 (column s 2) (column2-IsByteColumn h))
      (both_row2 (column s 2) (column2-IsByteColumn h))
      (both_row3 (column s 2) (column2-IsByteColumn h))
      (both_row0 (column s 3) (column3-IsByteColumn h))
      (both_row1 (column s 3) (column3-IsByteColumn h))
      (both_row2 (column s 3) (column3-IsByteColumn h))
      (both_row3 (column s 3) (column3-IsByteColumn h))

circulant-xor :
    (a b c d : List Bool) (s t : V128)
    → IsBytes s
    → IsBytes t
    → circulant a b c d (v128_xor s t) ≡ v128_xor (circulant a b c d s) (circulant a b c d t)
circulant-xor a b c d s t h k =
    V128-ext
      (combine-xor (column s 0) (column t 0) (column0-IsByteColumn h) (column0-IsByteColumn k)
        (row_form a b c d 0))
      (combine-xor (column s 0) (column t 0) (column0-IsByteColumn h) (column0-IsByteColumn k)
        (row_form a b c d 1))
      (combine-xor (column s 0) (column t 0) (column0-IsByteColumn h) (column0-IsByteColumn k)
        (row_form a b c d 2))
      (combine-xor (column s 0) (column t 0) (column0-IsByteColumn h) (column0-IsByteColumn k)
        (row_form a b c d 3))
      (combine-xor (column s 1) (column t 1) (column1-IsByteColumn h) (column1-IsByteColumn k)
        (row_form a b c d 0))
      (combine-xor (column s 1) (column t 1) (column1-IsByteColumn h) (column1-IsByteColumn k)
        (row_form a b c d 1))
      (combine-xor (column s 1) (column t 1) (column1-IsByteColumn h) (column1-IsByteColumn k)
        (row_form a b c d 2))
      (combine-xor (column s 1) (column t 1) (column1-IsByteColumn h) (column1-IsByteColumn k)
        (row_form a b c d 3))
      (combine-xor (column s 2) (column t 2) (column2-IsByteColumn h) (column2-IsByteColumn k)
        (row_form a b c d 0))
      (combine-xor (column s 2) (column t 2) (column2-IsByteColumn h) (column2-IsByteColumn k)
        (row_form a b c d 1))
      (combine-xor (column s 2) (column t 2) (column2-IsByteColumn h) (column2-IsByteColumn k)
        (row_form a b c d 2))
      (combine-xor (column s 2) (column t 2) (column2-IsByteColumn h) (column2-IsByteColumn k)
        (row_form a b c d 3))
      (combine-xor (column s 3) (column t 3) (column3-IsByteColumn h) (column3-IsByteColumn k)
        (row_form a b c d 0))
      (combine-xor (column s 3) (column t 3) (column3-IsByteColumn h) (column3-IsByteColumn k)
        (row_form a b c d 1))
      (combine-xor (column s 3) (column t 3) (column3-IsByteColumn h) (column3-IsByteColumn k)
        (row_form a b c d 2))
      (combine-xor (column s 3) (column t 3) (column3-IsByteColumn h) (column3-IsByteColumn k)
        (row_form a b c d 3))

circulant-IsBytes : (a b c d : List Bool) (s : V128) → IsBytes s → IsBytes (circulant a b c d s)
circulant-IsBytes a b c d s h = record {
  l0 = combine-lt (column s 0) (column0-IsByteColumn h) (row_form a b c d 0);
  l1 = combine-lt (column s 0) (column0-IsByteColumn h) (row_form a b c d 1);
  l2 = combine-lt (column s 0) (column0-IsByteColumn h) (row_form a b c d 2);
  l3 = combine-lt (column s 0) (column0-IsByteColumn h) (row_form a b c d 3);
  l4 = combine-lt (column s 1) (column1-IsByteColumn h) (row_form a b c d 0);
  l5 = combine-lt (column s 1) (column1-IsByteColumn h) (row_form a b c d 1);
  l6 = combine-lt (column s 1) (column1-IsByteColumn h) (row_form a b c d 2);
  l7 = combine-lt (column s 1) (column1-IsByteColumn h) (row_form a b c d 3);
  l8 = combine-lt (column s 2) (column2-IsByteColumn h) (row_form a b c d 0);
  l9 = combine-lt (column s 2) (column2-IsByteColumn h) (row_form a b c d 1);
  l10 = combine-lt (column s 2) (column2-IsByteColumn h) (row_form a b c d 2);
  l11 = combine-lt (column s 2) (column2-IsByteColumn h) (row_form a b c d 3);
  l12 = combine-lt (column s 3) (column3-IsByteColumn h) (row_form a b c d 0);
  l13 = combine-lt (column s 3) (column3-IsByteColumn h) (row_form a b c d 1);
  l14 = combine-lt (column s 3) (column3-IsByteColumn h) (row_form a b c d 2);
  l15 = combine-lt (column s 3) (column3-IsByteColumn h) (row_form a b c d 3);
}

pub aes_mix_columns-IsBytes : (s : V128) → IsBytes s → IsBytes (aes_mix_columns s)
aes_mix_columns-IsBytes s h =
    rw (aes_mix_columns_lem s h) (circulant-IsBytes by_02 by_03 by_01 by_01 s h)

pub aes_inv_mix_columns-IsBytes : (s : V128) → IsBytes s → IsBytes (aes_inv_mix_columns s)
aes_inv_mix_columns-IsBytes s h =
    rw (aes_inv_mix_columns_lem s h) (circulant-IsBytes by_0e by_0b by_0d by_09 s h)

pub v128_xor-IsBytes : (s t : V128) → IsBytes s → IsBytes t → IsBytes (v128_xor s t)
v128_xor-IsBytes s t h k = record {
  l0 = xor-lt _ _ h.l0 k.l0;
  l1 = xor-lt _ _ h.l1 k.l1;
  l2 = xor-lt _ _ h.l2 k.l2;
  l3 = xor-lt _ _ h.l3 k.l3;
  l4 = xor-lt _ _ h.l4 k.l4;
  l5 = xor-lt _ _ h.l5 k.l5;
  l6 = xor-lt _ _ h.l6 k.l6;
  l7 = xor-lt _ _ h.l7 k.l7;
  l8 = xor-lt _ _ h.l8 k.l8;
  l9 = xor-lt _ _ h.l9 k.l9;
  l10 = xor-lt _ _ h.l10 k.l10;
  l11 = xor-lt _ _ h.l11 k.l11;
  l12 = xor-lt _ _ h.l12 k.l12;
  l13 = xor-lt _ _ h.l13 k.l13;
  l14 = xor-lt _ _ h.l14 k.l14;
  l15 = xor-lt _ _ h.l15 k.l15;
}

-- InvMixColumns of a sum is the sum: what the equivalent inverse cipher rests on.
pub aes_inv_mix_columns-xor :
    (s t : V128)
    → IsBytes s
    → IsBytes t
    → aes_inv_mix_columns (v128_xor s t) ≡ v128_xor (aes_inv_mix_columns s) (aes_inv_mix_columns t)
aes_inv_mix_columns-xor s t h k =
    aes_inv_mix_columns_lem (v128_xor s t) (v128_xor-IsBytes s t h k)
    ∙ circulant-xor by_0e by_0b by_0d by_09 s t h k
    ∙ sym (ap₂ v128_xor (aes_inv_mix_columns_lem s h) (aes_inv_mix_columns_lem t k))
