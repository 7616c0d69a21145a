-- ===== src/Tls/Alpn/Next.antt =====
-- alpn_wire of src/tls.c uses one new address, if it does not fault.
use openssl_wasm.Common.{
  ℕ, suc, ◌+◌, ◌≡◌, ◌==◌, ltb, leb, refl, Bool, true, false, inl, inr, Bool-cases, Option, none,
  some, List, [], ◌∷◌, ◌++◌, take, drop, length, arith,
}
use openssl_wasm.Memory.{
  Cmd, null, Cell, raw, struct, object, World, Run, done, abort, fault, and_then, free, update,
  write_at, at_least_one,
}
use openssl_wasm.Tls.Alpn.{alpn_loop, alpn_total, alpn_wire}

module _ {O R : Type 0} where
  -- If the run ends, the last address used is `n`.
  abbrev pub NextIs : {A : Type 0} → ℕ → Run O R A → Type 0
  NextIs n (done a w) = w.next ≡ n
  NextIs n abort = Unit
  NextIs n fault = Unit

  then-NextIs :
      {A B : Type 0} (n : ℕ) (run : Run O R A) (k : A → Cmd O R B)
      → NextIs n run
      → ((a : A) (w : World O R) → w.next ≡ n → NextIs n (k a w))
      → NextIs n (and_then run k)
  then-NextIs n (done a w) k h next = next a w h
  then-NextIs n abort k h next = tt
  then-NextIs n fault k h next = tt

  write_at-NextIs :
      (n p at : ℕ) (bs : List ℕ) (w : World O R) → w.next ≡ n → NextIs n (write_at p at bs w)
  write_at-NextIs n p at bs w h = go (w.cell p) refl
    where
      go : (c : Option (Cell O R)) → w.cell p ≡ c → NextIs n (write_at p at bs w)
      go none e = let r : write_at p at bs w ≡ fault = ground (arith, e) in rw r tt
      go (some (struct s)) e = let r : write_at p at bs w ≡ fault = ground (arith, e) in rw r tt
      go (some (object o)) e = let r : write_at p at bs w ≡ fault = ground (arith, e) in rw r tt
      go (some (raw k old)) e = elim (Bool-cases (leb (at + length bs) k)) [
        | inl fits ↦
            let c =
              update w.cell p (some (raw k (take at old ++ (bs ++ drop (at + length bs) old)))) in
            let r : write_at p at bs w ≡ done tt (record w { cell = c }) =
              ground (arith, e, fits) in
            rw r h
        | inr past ↦ let r : write_at p at bs w ≡ fault = ground (arith, e, past) in rw r tt
      ]

  free-NextIs : (n p : ℕ) (w : World O R) → w.next ≡ n → NextIs n (free p w)
  free-NextIs n p w h = elim (Bool-cases (p == null)) [
    | inl bare ↦ rw bare h
    | inr set ↦ go set (w.cell p) refl
  ]
    where
      go : (p == null) ≡ false → (c : Option (Cell O R)) → w.cell p ≡ c → NextIs n (free p w)
      go set none e = rw (set, e) tt
      go set (some (object o)) e = rw (set, e) tt
      go set (some (struct r)) e = rw (set, e) h
      go set (some (raw k old)) e = rw (set, e) h

  alpn_loop-NextIs :
      (ps : List (List ℕ)) (n buf o : ℕ) (w : World O R)
      → w.next ≡ n
      → NextIs n (alpn_loop buf o ps w)
  unfolding alpn_loop
  alpn_loop-NextIs [] n buf o w h = h
  alpn_loop-NextIs (p ∷ ps) n buf o w h = elim (Bool-cases (ltb 255 (length p))) [
    | inl long ↦ rw long (then-NextIs n (free buf w) _ (free-NextIs n buf w h) (λ a v g. g))
    | inr short ↦ rw short (
        then-NextIs n (write_at buf o (length p ∷ []) w) _
          (write_at-NextIs n buf o (length p ∷ []) w h)
          (λ a v g.
            then-NextIs n (write_at buf (o + 1) p v) _ (write_at-NextIs n buf (o + 1) p v g)
              (λ b u f. alpn_loop-NextIs ps n buf (o + 1 + length p) u f)))
  ]

  pub alpn_wire-NextIs :
      (room : ℕ → Bool) (ps : List (List ℕ)) (w : World O R)
      → room (at_least_one (alpn_total ps)) ≡ true
      → NextIs (suc w.next) (alpn_wire room (some ps) w)
  unfolding alpn_wire
  alpn_wire-NextIs room ps w grant = rw grant (
      then-NextIs (suc w.next) _ _ (alpn_loop-NextIs ps (suc w.next) (suc w.next) 0 _ refl)
        (λ a v g. g))
