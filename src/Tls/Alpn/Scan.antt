-- ===== src/Tls/Alpn/Scan.antt =====
-- The scan of alpn_select_cb in src/tls.c over the list that the listener keeps, and a reader of the
-- wire format.
use mathlib.Core.List.{append_assoc}
use openssl_wasm.Common.{
  ℕ, zero, suc, ◌+◌, ◌≤◌, ◌≡◌, refl, ap, ◌∙◌, Bool, true, false, ◌==◌, Option, none, some, List, [],
  ◌∷◌, ◌++◌, length, length-append, take, get_elem?, take-length-append, drop-length-append, arith,
}
use mathlib.Core.Path.{subst}
use openssl_wasm.Memory.{World, done, null, at_least_one}
use openssl_wasm.Memory.Contract.{IsFresh, contents}
use openssl_wasm.Tls.Alpn.{alpn_total, alpn_wire, scan_list, scan_length}
use openssl_wasm.Tls.Alpn.Wire.{wire, Writes, alpn_wire_lem, wire_value, wire_value-wire, read_wire}

-- The names before the first empty one.
abbrev pub until_empty : List (List ℕ) → List (List ℕ)
until_empty [] = []
until_empty ([] ∷ ps) = []
until_empty ((c ∷ p) ∷ ps) = (c ∷ p) ∷ until_empty ps

get_elem?-append :
    (xs : List ℕ) (y : ℕ) (ys : List ℕ) → get_elem? (xs ++ y ∷ ys) (length xs) ≡ some y
get_elem?-append [] y ys = refl
get_elem?-append (x ∷ xs) y ys = get_elem?-append xs y ys

-- The scan goes on from a place with `before` in front of it.
scan_list-wire :
    (ps : List (List ℕ)) (fuel : ℕ) (before : List ℕ)
    → length (wire ps) + 1 ≤ fuel
    → scan_list fuel (before ++ (wire ps ++ 0 ∷ [])) (length before)
      ≡ some (length before + length (wire (until_empty ps)))
unfolding scan_list
scan_list-wire ps zero before h = absurd (omega arith)
scan_list-wire [] (suc fuel) before h = ground (arith, get_elem?-append before 0 [])
scan_list-wire ([] ∷ ps) (suc fuel) before h =
    ground (arith, get_elem?-append before 0 (wire ps ++ 0 ∷ []))
scan_list-wire ((c ∷ p) ∷ ps) (suc fuel) before h =
    let name = c ∷ p in
    let rest = wire ps ++ 0 ∷ [] in
    let before' = before ++ (length name ∷ name) in
    let len : length before' ≡ length before + 1 + length name =
      omega (arith, length-append before (length name ∷ name)) in
    let ih = scan_list-wire ps fuel before' (omega (arith, length-append name (wire ps))) in
    let split : before ++ (wire (name ∷ ps) ++ 0 ∷ []) ≡ before' ++ rest = ground (
      arith,
      append_assoc before (length name ∷ name) rest,
      append_assoc name (wire ps) (0 ∷ []),
    ) in
    ground (
      arith,
      get_elem?-append before (length name) ((name ++ wire ps) ++ 0 ∷ []),
      ih,
      len,
      split,
      length-append name (wire (until_empty ps)),
    )

take-append : (xs ys : List ℕ) (n : ℕ) → take (length xs + n) (xs ++ ys) ≡ xs ++ take n ys
take-append [] ys n = let e : 0 + n ≡ n = omega arith in ap (λ k. take k ys) e
take-append (x ∷ xs) ys n =
    let e : suc (length xs) + n ≡ suc (length xs + n) = omega arith in
    ap (λ k. take k (x ∷ (xs ++ ys))) e ∙ ap (λ zs. x ∷ zs) (take-append xs ys n)

take-until_empty :
    (ps : List (List ℕ)) → take (length (wire (until_empty ps))) (wire ps) ≡ wire (until_empty ps)
take-until_empty [] = refl
take-until_empty ([] ∷ ps) = refl
take-until_empty ((c ∷ p) ∷ ps) =
    let name = c ∷ p in
    ground (
      arith,
      take-append name (wire ps) (length (wire (until_empty ps))),
      take-until_empty ps,
      length-append name (wire (until_empty ps)),
    )

-- On the list that the listener keeps, the bytes of alpn_wire with a NUL behind them, the scan of
-- alpn_select_cb stops after the names before the first empty one, and reads nothing past the NUL:
-- so the list offered to SSL_select_next_proto is the wire format of these names.
pub scan_length_lem :
    (ps : List (List ℕ)) (bs : List ℕ)
    → wire_value ps ≡ some bs
    → (scan_length (bs ++ 0 ∷ []) ≡ some (length (wire (until_empty ps))))
      × (take (length (wire (until_empty ps))) bs ≡ wire (until_empty ps))
unfolding scan_length
scan_length_lem ps bs h =
    let e = wire_value-wire ps bs h in
    (
      rw e (
          scan_list-wire ps (length (wire ps ++ 0 ∷ [])) []
            (omega (arith, length-append (wire ps) (0 ∷ [])))
          ∙ ap some (omega arith)),
      rw e (take-until_empty ps),
    )

read_wire-wire :
    (ps : List (List ℕ)) (fuel : ℕ) → length (wire ps) ≤ fuel → read_wire fuel (wire ps) ≡ some ps
read_wire-wire [] fuel h = refl
read_wire-wire (p ∷ ps) zero h = absurd (omega arith)
read_wire-wire (p ∷ ps) (suc fuel) h = ground (
  arith,
  take-length-append p (wire ps),
  drop-length-append p (wire ps),
  read_wire-wire ps fuel (omega (arith, length-append p (wire ps))),
)

module _ {O R : Type 0} where
  -- A reader of RFC 7301's format gives back the names that alpn_wire was given, from the buffer
  -- and the length that it returns, wherever these are not NULL and 0. This holds where malloc
  -- grants the length.
  pub alpn_wire_reads :
      (room : ℕ → Bool) (ps : List (List ℕ)) (w w' : World O R) (p n : ℕ) (bs : List ℕ)
      → IsFresh w
      → room (at_least_one (alpn_total ps)) ≡ true
      → alpn_wire room (some ps) w ≡ done (p, n) w'
      → (p == null) ≡ false
      → contents (w'.cell p) ≡ some bs
      → read_wire n bs ≡ some ps
  alpn_wire_reads room ps w w' p n bs fresh grants runs set held =
      step (wire_value ps) refl
        (subst (λ run. Writes w run (wire_value ps)) runs (alpn_wire_lem room ps w fresh grants).0)
    where
      step :
          (v : Option (List ℕ))
          → wire_value ps ≡ v
          → Writes w (done (p, n) w') (wire_value ps)
          → read_wire n bs ≡ some ps
      step none e h =
          let h' : Writes w (done (p, n) w') none = subst (Writes w (done (p, n) w')) e h in
          absurd (ground (arith, h'.0, set))
      step (some cs) e h =
          let h' : Writes w (done (p, n) w') (some cs) = subst (Writes w (done (p, n) w')) e h in
          let same : bs ≡ wire ps = ground (arith, h'.0, held, wire_value-wire ps cs e) in
          rw same (read_wire-wire ps n (ground (arith, h'.1, wire_value-wire ps cs e)))
