-- ===== src/Aes/Linear.antt =====
-- Sums and doublings of the four bytes of a column, decided by their coefficients.
use openssl_wasm.Common.{ℕ, ◌<◌, bit_xor, ◌≡◌, sym, ◌∙◌, ap, ap₂, Bool, true, false, List, [], ◌∷◌}
use openssl_wasm.Common.Bits.{xor-zero, zero-xor, xor_interchange}
use openssl_wasm.Aes.Field.{
  xtime, xtime-xor, xor-lt, xtime-lt, times, times-lt, xtime-times, add_poly, times-add_poly,
  times-xor,
}

pub record Column : Type 0 where
  pub r0 : ℕ
  pub r1 : ℕ
  pub r2 : ℕ
  pub r3 : ℕ

pub record IsByteColumn (s : Column) : Type 0 where
  pub c0 : s.r0 < 256
  pub c1 : s.r1 < 256
  pub c2 : s.r2 < 256
  pub c3 : s.r3 < 256

pub data Expr : Type 0 where
  x0 x1 x2 x3 : Expr
  plus : Expr → Expr → Expr
  dbl : Expr → Expr

abbrev pub eval : Column → Expr → ℕ
eval s x0 = s.r0
eval s x1 = s.r1
eval s x2 = s.r2
eval s x3 = s.r3
eval s (plus e f) = bit_xor (eval s e) (eval s f)
eval s (dbl e) = xtime (eval s e)

-- The coefficients of the four bytes.
pub record Form : Type 0 where
  pub p0 : List Bool
  pub p1 : List Bool
  pub p2 : List Bool
  pub p3 : List Bool

abbrev pub form : Expr → Form
form x0 = record { p0 = true ∷ []; p1 = []; p2 = []; p3 = [] }
form x1 = record { p0 = []; p1 = true ∷ []; p2 = []; p3 = [] }
form x2 = record { p0 = []; p1 = []; p2 = true ∷ []; p3 = [] }
form x3 = record { p0 = []; p1 = []; p2 = []; p3 = true ∷ [] }
form (plus e f) =
    let g = form e in
    let h = form f in
    record {
      p0 = add_poly g.p0 h.p0;
      p1 = add_poly g.p1 h.p1;
      p2 = add_poly g.p2 h.p2;
      p3 = add_poly g.p3 h.p3;
    }
form (dbl e) =
    let g = form e in
    record { p0 = false ∷ g.p0; p1 = false ∷ g.p1; p2 = false ∷ g.p2; p3 = false ∷ g.p3 }

-- The linear form with given coefficients.
abbrev pub combine : Column → Form → ℕ
combine s g =
    bit_xor (bit_xor (times g.p0 s.r0) (times g.p1 s.r1))
      (bit_xor (times g.p2 s.r2) (times g.p3 s.r3))

eval-lt : (s : Column) → IsByteColumn s → (e : Expr) → eval s e < 256
eval-lt s h x0 = h.c0
eval-lt s h x1 = h.c1
eval-lt s h x2 = h.c2
eval-lt s h x3 = h.c3
eval-lt s h (plus e f) = xor-lt _ _ (eval-lt s h e) (eval-lt s h f)
eval-lt s h (dbl e) = xtime-lt _ (eval-lt s h e)

sum_of_sums :
    (a b c d a' b' c' d' : ℕ)
    → bit_xor (bit_xor (bit_xor a b) (bit_xor c d)) (bit_xor (bit_xor a' b') (bit_xor c' d'))
      ≡ bit_xor (bit_xor (bit_xor a a') (bit_xor b b')) (bit_xor (bit_xor c c') (bit_xor d d'))
sum_of_sums a b c d a' b' c' d' =
    xor_interchange (bit_xor a b) (bit_xor c d) (bit_xor a' b') (bit_xor c' d')
    ∙ ap₂ bit_xor (xor_interchange a b a' b') (xor_interchange c d c' d')

xtime-combine :
    (s : Column)
    → IsByteColumn s
    → (g : Form)
    → xtime (combine s g)
      ≡ bit_xor
          (bit_xor (times g.p0 (xtime s.r0)) (times g.p1 (xtime s.r1)))
          (bit_xor (times g.p2 (xtime s.r2)) (times g.p3 (xtime s.r3)))
xtime-combine s h g =
    let l0 = times-lt g.p0 s.r0 h.c0 in
    let l1 = times-lt g.p1 s.r1 h.c1 in
    let l2 = times-lt g.p2 s.r2 h.c2 in
    let l3 = times-lt g.p3 s.r3 h.c3 in
    xtime-xor _ _ (xor-lt _ _ l0 l1) (xor-lt _ _ l2 l3)
    ∙ ap₂ bit_xor
        (xtime-xor _ _ l0 l1
          ∙ ap₂ bit_xor (xtime-times g.p0 s.r0 h.c0) (xtime-times g.p1 s.r1 h.c1))
        (xtime-xor _ _ l2 l3
          ∙ ap₂ bit_xor (xtime-times g.p2 s.r2 h.c2) (xtime-times g.p3 s.r3 h.c3))

pub eval-eq-combine : (s : Column) → IsByteColumn s → (e : Expr) → eval s e ≡ combine s (form e)
eval-eq-combine s h x0 = simp xor-zero
eval-eq-combine s h x1 = simp (xor-zero, zero-xor)
eval-eq-combine s h x2 = simp (xor-zero, zero-xor)
eval-eq-combine s h x3 = simp (xor-zero, zero-xor)
eval-eq-combine s h (plus e f) =
    let g = form e in
    let k = form f in
    ap₂ bit_xor (eval-eq-combine s h e) (eval-eq-combine s h f)
    ∙ sum_of_sums (times g.p0 s.r0) (times g.p1 s.r1) (times g.p2 s.r2) (times g.p3 s.r3)
        (times k.p0 s.r0) (times k.p1 s.r1) (times k.p2 s.r2) (times k.p3 s.r3)
    ∙ sym (
        ap₂ bit_xor (ap₂ bit_xor (times-add_poly g.p0 k.p0 s.r0) (times-add_poly g.p1 k.p1 s.r1))
          (ap₂ bit_xor (times-add_poly g.p2 k.p2 s.r2) (times-add_poly g.p3 k.p3 s.r3)))
eval-eq-combine s h (dbl e) = ap xtime (eval-eq-combine s h e) ∙ xtime-combine s h (form e)

pub combine-xor :
    (s t : Column)
    → IsByteColumn s
    → IsByteColumn t
    → (g : Form)
    → combine
        (record {
          r0 = bit_xor s.r0 t.r0;
          r1 = bit_xor s.r1 t.r1;
          r2 = bit_xor s.r2 t.r2;
          r3 = bit_xor s.r3 t.r3;
        })
        g
      ≡ bit_xor (combine s g) (combine t g)
combine-xor s t h k g =
    ap₂ bit_xor
      (ap₂ bit_xor (times-xor g.p0 s.r0 t.r0 h.c0 k.c0) (times-xor g.p1 s.r1 t.r1 h.c1 k.c1))
      (ap₂ bit_xor (times-xor g.p2 s.r2 t.r2 h.c2 k.c2) (times-xor g.p3 s.r3 t.r3 h.c3 k.c3))
    ∙ sym (
        sum_of_sums (times g.p0 s.r0) (times g.p1 s.r1) (times g.p2 s.r2) (times g.p3 s.r3)
          (times g.p0 t.r0) (times g.p1 t.r1) (times g.p2 t.r2) (times g.p3 t.r3))

pub combine-lt : (s : Column) → IsByteColumn s → (g : Form) → combine s g < 256
combine-lt s h g =
    xor-lt _ _ (xor-lt _ _ (times-lt g.p0 s.r0 h.c0) (times-lt g.p1 s.r1 h.c1))
      (xor-lt _ _ (times-lt g.p2 s.r2 h.c2) (times-lt g.p3 s.r3 h.c3))
