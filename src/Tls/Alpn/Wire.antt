-- ===== src/Tls/Alpn/Wire.antt =====
-- What alpn_wire of src/tls.c writes.
use mathlib.Core.List.{append-nil, append_assoc}
use openssl_wasm.Common.{
  ℕ, zero, suc, ◌+◌, ◌≤◌, ◌≡◌, refl, sym, ap, ◌∙◌, Bool, true, false, ltb, ◌==◌, if◌then◌else◌, inl,
  inr, Bool-cases, Option, none, some, List, [], ◌∷◌, ◌++◌, length, length-append, take, drop,
  take_past, drop_past, arith,
}
use openssl_wasm.Memory.{
  Ptr, null, raw, World, Run, done, abort, fault, update, at_least_one, and_then, pure,
}
use openssl_wasm.Memory.Contract.{contents, IsFresh}
use openssl_wasm.Tls.Alpn.{alpn_total, alpn_loop, alpn_wire}

-- RFC 7301, 3.1: each name behind one byte of length.
abbrev pub wire : List (List ℕ) → List ℕ
wire [] = []
wire (p ∷ ps) = length p ∷ (p ++ wire ps)

-- The wire format, if every name is short enough for it.
abbrev pub wire_value : List (List ℕ) → Option (List ℕ)
wire_value [] = some []
wire_value (p ∷ ps) =
    if ltb 255 (length p)
    then none
    else elim (wire_value ps) [ none ↦ none | some bs ↦ some (length p ∷ (p ++ bs)) ]

pub wire_value-wire : (ps : List (List ℕ)) (bs : List ℕ) → wire_value ps ≡ some bs → bs ≡ wire ps
wire_value-wire [] bs h = ground (arith, h)
wire_value-wire (p ∷ ps) bs h = step (wire_value ps) refl (wire_value-wire ps)
  where
    step :
        (v : Option (List ℕ))
        → wire_value ps ≡ v
        → ((cs : List ℕ) → wire_value ps ≡ some cs → cs ≡ wire ps)
        → bs ≡ wire (p ∷ ps)
    step none e ih = absurd (ground (arith, e, h))
    step (some cs) e ih = ground (arith, e, h, ih cs e)

alpn_total-wire : (ps : List (List ℕ)) → alpn_total ps ≡ length (wire ps)
alpn_total-wire [] = refl
alpn_total-wire (p ∷ ps) = omega (arith, alpn_total-wire ps, length-append p (wire ps))

alpn_total-length :
    (ps : List (List ℕ)) (bs : List ℕ) → wire_value ps ≡ some bs → alpn_total ps ≡ length bs
alpn_total-length ps bs h = alpn_total-wire ps ∙ ap length (sym (wire_value-wire ps bs h))

-- The names that a list of bytes in wire format stands for, on fuel.
abbrev pub read_wire : ℕ → List ℕ → Option (List (List ℕ))
read_wire fuel [] = some []
read_wire zero (n ∷ bs) = none
read_wire (suc fuel) (n ∷ bs) = elim (read_wire fuel (drop n bs)) [
  | none ↦ none
  | some ps ↦ some (take n bs ∷ ps)
]

module _ {O R : Type 0} where
  -- The loop filled the buffer, which held `old`, with the bytes, or freed it; the rest is as it
  -- was.
  abbrev Fills : World O R → Ptr → ℕ → List ℕ → Run O R Bool → Option (List ℕ) → Type 0
  Fills w buf n old (done true w') (some bs) =
      (w'.cell buf ≡ some (raw n (old ++ bs)))
      × ((x : Ptr) → (x == buf) ≡ false → w'.cell x ≡ w.cell x)
      × (w'.errs ≡ w.errs)
  Fills w buf n old (done false w') none =
      (w'.cell buf ≡ none)
      × ((x : Ptr) → (x == buf) ≡ false → w'.cell x ≡ w.cell x)
      × (w'.errs ≡ w.errs)
  Fills w buf n old (done true w') none = ⊥
  Fills w buf n old (done false w') (some bs) = ⊥
  Fills w buf n old abort v = ⊥
  Fills w buf n old fault v = ⊥

  Fills-cons :
      (w v : World O R) (buf : Ptr) (n : ℕ) (old p : List ℕ) (run : Run O R Bool)
      (value : Option (List ℕ))
      → ltb 255 (length p) ≡ false
      → ((x : Ptr) → (x == buf) ≡ false → v.cell x ≡ w.cell x)
      → v.errs ≡ w.errs
      → Fills v buf n ((old ++ length p ∷ []) ++ p) run value
      → Fills w buf n old run (elim value [ none ↦ none | some bs ↦ some (length p ∷ (p ++ bs)) ])
  Fills-cons w v buf n old p (done true w') (some bs) short same errs h = (
    h.0
        ∙ ap (λ c. some (raw n c))
            (append_assoc (old ++ length p ∷ []) p bs ∙ append_assoc old (length p ∷ []) (p ++ bs)),
    λ x e. h.1 x e ∙ same x e,
    h.2 ∙ errs,
  )
  Fills-cons w v buf n old p (done false w') none short same errs h =
      (h.0, λ x e. h.1 x e ∙ same x e, h.2 ∙ errs)
  Fills-cons w v buf n old p (done true w') none short same errs h = h
  Fills-cons w v buf n old p (done false w') (some bs) short same errs h = h
  Fills-cons w v buf n old p abort value short same errs h = h
  Fills-cons w v buf n old p fault value short same errs h = h

  alpn_loop-Fills :
      (ps : List (List ℕ)) (w : World O R) (buf : Ptr) (n o : ℕ) (old : List ℕ)
      → w.cell buf ≡ some (raw n old)
      → (buf == null) ≡ false
      → o ≡ length old
      → o + alpn_total ps ≤ n
      → Fills w buf n old (alpn_loop buf o ps w) (wire_value ps)
  unfolding alpn_loop
  alpn_loop-Fills [] w buf n o old held set eo fits = ground (arith, held, append-nil old)
  alpn_loop-Fills (p ∷ ps) w buf n o old held set eo fits = elim (Bool-cases (ltb 255 (length p))) [
    | inl long ↦ ground (arith, long, held, set)
    | inr short ↦
        let bs1 = old ++ length p ∷ [] in
        let w2 : World O R = record w {
          cell = update (update w.cell buf (some (raw n bs1))) buf (some (raw n (bs1 ++ p)));
        } in
        let runs : alpn_loop buf o (p ∷ ps) w ≡ alpn_loop buf (o + 1 + length p) ps w2 = ground (
          arith,
          short,
          held,
          append-nil p,
          length-append old (length p ∷ []),
          take_past o old,
          drop_past (o + 1) old,
          take_past (o + 1) bs1,
          drop_past (o + 1 + length p) bs1,
        ) in
        let value : wire_value (p ∷ ps)
            ≡ elim (wire_value ps) [ none ↦ none | some bs ↦ some (length p ∷ (p ++ bs)) ] =
          rw short in
        rw (runs, value)
          (Fills-cons w w2 buf n old p (alpn_loop buf (o + 1 + length p) ps w2) (wire_value ps)
            short (λ x e. ground (arith, e)) refl
            (alpn_loop-Fills ps w2 buf n (o + 1 + length p) (bs1 ++ p) (ground arith) set
              (omega (arith, length-append bs1 p, length-append old (length p ∷ [])))
              (ground arith)))
  ]

  -- The call left a new buffer with the bytes, and returned it with their number; or NULL and 0,
  -- with the memory as it was.
  abbrev pub Writes : World O R → Run O R (Ptr × ℕ) → Option (List ℕ) → Type 0
  Writes w (done (p, n) w') (some bs) =
      (contents (w'.cell p) ≡ some bs)
      × (n ≡ length bs)
      × (w.cell p ≡ none)
      × ((x : Ptr) → (x == p) ≡ false → w'.cell x ≡ w.cell x)
      × (w'.errs ≡ w.errs)
      × ((p == null) ≡ false)
  Writes w (done (p, n) w') none =
      (p ≡ null) × (n ≡ 0) × ((x : Ptr) → w'.cell x ≡ w.cell x) × (w'.errs ≡ w.errs)
  Writes w abort v = ⊥
  Writes w fault v = ⊥

  abbrev finish : Ptr → ℕ → Run O R Bool → Run O R (Ptr × ℕ)
  finish buf n run = and_then run (λ fits. pure (if fits then (buf, n) else (null, 0)))

  finish-Writes :
      (w v : World O R) (buf n k : ℕ) (run : Run O R Bool) (value : Option (List ℕ))
      → w.cell buf ≡ none
      → (buf == null) ≡ false
      → ((x : Ptr) → (x == buf) ≡ false → v.cell x ≡ w.cell x)
      → v.errs ≡ w.errs
      → ((bs : List ℕ) → value ≡ some bs → k ≡ length bs)
      → Fills v buf n [] run value
      → Writes w (finish buf k run) value
  finish-Writes w v buf n k (done true w') (some bs) unused set same errs sized h =
      (ap contents h.0, sized bs refl, unused, λ x e. h.1 x e ∙ same x e, h.2 ∙ errs, set)
  finish-Writes w v buf n k (done false w') none unused set same errs sized h = (
    refl,
    refl,
    λ x. elim (Bool-cases (x == buf)) [
      | inl e ↦ ground (arith, e, h.0, unused)
      | inr e ↦ h.1 x e ∙ same x e
    ],
    h.2 ∙ errs,
  )
  finish-Writes w v buf n k (done true w') none unused set same errs sized h = absurd h
  finish-Writes w v buf n k (done false w') (some bs) unused set same errs sized h = absurd h
  finish-Writes w v buf n k abort value unused set same errs sized h = absurd h
  finish-Writes w v buf n k fault value unused set same errs sized h = absurd h

  -- For every list of names: alpn_wire leaves their RFC 7301 wire format in one new buffer, and
  -- returns it with its length; or, where a name is longer than 255 bytes or there is no list, NULL
  -- and 0 with the memory as it was. No write is out of bounds. This holds where malloc grants the
  -- length.
  pub alpn_wire_lem :
      (room : ℕ → Bool) (ps : List (List ℕ)) (w : World O R)
      → IsFresh w
      → room (at_least_one (alpn_total ps)) ≡ true
      → Writes w (alpn_wire room (some ps) w) (wire_value ps)
        × Writes w (alpn_wire room none w) none
  unfolding alpn_wire
  alpn_wire_lem room ps w fresh grants = (
    rw runs (
        finish-Writes w v buf (at_least_one (alpn_total ps)) (alpn_total ps) (alpn_loop buf 0 ps v)
          (wire_value ps) (fresh.unused buf (omega arith)) (ground arith) (λ x e. ground (arith, e))
          refl (λ bs h. alpn_total-length ps bs h)
          (alpn_loop-Fills ps v buf (at_least_one (alpn_total ps)) 0 [] (ground arith)
            (ground arith) refl (ground arith))),
    (refl, refl, λ x. refl, refl),
  )
    where
      buf : Ptr
      buf = suc w.next

      v : World O R
      v = record w {
        next = buf;
        cell = update w.cell buf (some (raw (at_least_one (alpn_total ps)) []));
      }

      runs : alpn_wire room (some ps) w ≡ finish buf (alpn_total ps) (alpn_loop buf 0 ps v)
      runs = ground (arith, grants)
