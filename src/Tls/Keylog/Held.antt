-- ===== src/Tls/Keylog/Held.antt =====
-- What the key log buffer of src/tls.c holds in memory, and keylog_buf_append.

use openssl_wasm.Common.{
  ℕ, suc, ◌+◌, ◌*◌, ◌/◌, ◌%◌, ◌^◌, ◌≤◌, ◌<◌, ◌≡◌, refl, ap, ◌∙◌, Bool, true, false, ◌||◌, ◌==◌,
  ==_iff, inl, inr, Bool-cases, Option, none, some, List, [], ◌∷◌, ◌++◌, length, arith,
}
use openssl_wasm.Memory.{Queue, Ptr, null, Cell, raw, struct, World, Run, done, update}
use openssl_wasm.Memory.Contract.{IsFresh}
use openssl_wasm.Tls.Structs.{KeylogBuf, TlsStruct, pointers}
use openssl_wasm.Tls.Keylog.{grown}

abbrev pub mem : Ptr → List Ptr → Bool
mem x [] = false
mem x (p ∷ ps) = x == p || mem x ps

pub mem-append : (x : Ptr) (ps : List Ptr) (q : Ptr) → mem x (ps ++ q ∷ []) ≡ (mem x ps || x == q)
mem-append x [] q = ground arith
mem-append x (p ∷ ps) q = ground (arith, mem-append x ps q)

abbrev pub Memory : Type 0 → Type 0
Memory O = Ptr → Option (Cell O TlsStruct)

pub length-zero : (ps : List Ptr) → length ps ≡ 0 → ps ≡ []
length-zero [] h = refl
length-zero (p ∷ ps) h = absurd (ground arith)

-- An address of the lines is not one that is not of them.
pub mem_apart : (x y : Ptr) (ps : List Ptr) → mem x ps ≡ true → mem y ps ≡ false → (x == y) ≡ false
mem_apart x y ps inside outside = elim (Bool-cases (x == y)) [
  | inl same ↦ absurd (ground (arith, ap (λ z. mem z ps) ((==_iff x y).0 same)))
  | inr other ↦ other
]

module _ {O : Type 0} where
  -- At the addresses lie the lines, each with a NUL behind it; no address is there twice.
  abbrev pub Texts : Memory O → List Ptr → List (List ℕ) → Type 0
  Texts c [] [] = Unit
  Texts c (p ∷ ps) (l ∷ ls) =
      (c p ≡ some (raw (length l + 1) (l ++ 0 ∷ [])))
      × (mem p ps ≡ false)
      × ((p == null) ≡ false)
      × Texts c ps ls
  Texts c [] (l ∷ ls) = ⊥
  Texts c (p ∷ ps) [] = ⊥

  abbrev pub AllNew : Memory O → List Ptr → Type 0
  AllNew c [] = Unit
  AllNew c (p ∷ ps) = (c p ≡ none) × AllNew c ps

  pub Texts-frame :
      (c d : Memory O) (ps : List Ptr) (ls : List (List ℕ))
      → ((x : Ptr) → mem x ps ≡ true → d x ≡ c x)
      → Texts c ps ls
      → Texts d ps ls
  Texts-frame c d [] [] same t = tt
  Texts-frame c d (p ∷ ps) (l ∷ ls) same t = (
    same p (ground arith) ∙ t.0,
    t.1,
    t.2,
    Texts-frame c d ps ls (λ x h. same x (ground (arith, h))) t.3,
  )
  Texts-frame c d [] (l ∷ ls) same t = t
  Texts-frame c d (p ∷ ps) [] same t = t

  pub Texts-snoc :
      (c : Memory O) (ps : List Ptr) (ls : List (List ℕ)) (q : Ptr) (l : List ℕ)
      → Texts c ps ls
      → c q ≡ some (raw (length l + 1) (l ++ 0 ∷ []))
      → mem q ps ≡ false
      → (q == null) ≡ false
      → Texts c (ps ++ q ∷ []) (ls ++ l ∷ [])
  Texts-snoc c [] [] q l t h out set = (h, refl, set, tt)
  Texts-snoc c (p ∷ ps) (k ∷ ls) q l t h out set = (
    t.0,
    ground (arith, mem-append p ps q, t.1, out),
    t.2,
    Texts-snoc c ps ls q l t.3 h (ground (arith, out)) set,
  )
  Texts-snoc c [] (k ∷ ls) q l t h out set = absurd t
  Texts-snoc c (p ∷ ps) [] q l t h out set = absurd t

  pub mem_unused :
      (c : Memory O) (x : Ptr) (ps : List Ptr) (ls : List (List ℕ))
      → c x ≡ none
      → Texts c ps ls
      → mem x ps ≡ false
  mem_unused c x [] [] h t = refl
  mem_unused c x (p ∷ ps) (l ∷ ls) h t = ground (arith, h, t.0, mem_unused c x ps ls h t.3)
  mem_unused c x [] (l ∷ ls) h t = refl
  mem_unused c x (p ∷ ps) [] h t = absurd t

  pub AllNew-snoc :
      (c : Memory O) (ps : List Ptr) (q : Ptr) → AllNew c ps → c q ≡ none → AllNew c (ps ++ q ∷ [])
  AllNew-snoc c [] q a h = (h, tt)
  AllNew-snoc c (p ∷ ps) q a h = (a.0, AllNew-snoc c ps q a.1 h)

  -- In `w` the buffer holds the lines, at the addresses `ps`; but for these and the array the
  -- memory is `m`.
  pub record IsHolding (m : Memory O) (w : World O TlsStruct) (b : KeylogBuf) (ps : List Ptr)
      (ls : List (List ℕ)) : Type 0 where
    pub fresh : IsFresh w
    pub len : b.len ≡ length ps
    pub fits : length ps ≤ b.cap
    pub bounded : b.cap ≤ 16 + 2 * length ps
    pub cap_set : (b.lines == null) ≡ false → (b.cap == 0) ≡ false
    pub array : (b.lines == null) ≡ false → w.cell b.lines ≡ some (struct (pointers b.cap ps))
    pub empty : (b.lines == null) ≡ true → b.cap ≡ 0
    pub texts : Texts w.cell ps ls
    pub apart : mem b.lines ps ≡ false
    pub array_new : m b.lines ≡ none
    pub texts_new : AllNew m ps
    pub others : (x : Ptr) → (x == b.lines) ≡ false → mem x ps ≡ false → w.cell x ≡ m x
    pub null_free : m null ≡ none

  -- `grown` gives a buffer of the same lines with room for one more.
  pub record HasRoom (m : Memory O) (run : Run O TlsStruct (Option KeylogBuf)) (errs : Queue)
      (ps : List Ptr) (ls : List (List ℕ)) : Type 0 where
    pub buf : KeylogBuf
    pub after : World O TlsStruct
    pub runs : run ≡ done (some buf) after
    pub holding : IsHolding m after buf ps ls
    pub array_set : (buf.lines == null) ≡ false
    pub spare : length ps < buf.cap
    pub errs_kept : after.errs ≡ errs

  module _ (room : ℕ → Bool) (grants : (n : ℕ) → room n ≡ true) (m : Memory O) where
    pub grown-HasRoom :
        (w : World O TlsStruct) (b : KeylogBuf) (ps : List Ptr) (ls : List (List ℕ))
        → IsHolding m w b ps ls
        → length ps < 2 ^ 28
        → HasRoom m (grown room b w) w.errs ps ls
    grown-HasRoom w b ps ls s small = split (b.len == b.cap) refl (b.lines == null) refl
      where
        p : Ptr
        p = suc w.next

        unused : w.cell p ≡ none
        unused = s.fresh.unused p (omega arith)

        out : mem p ps ≡ false
        out = mem_unused w.cell p ps ls unused s.texts

        split :
            (full : Bool)
            → (b.len == b.cap) ≡ full
            → (bare : Bool) → (b.lines == null) ≡ bare
            → HasRoom m (grown room b w) w.errs ps ls
        split false spare bare e = record {
          buf = b;
          after = w;
          runs = ground (arith, spare);
          holding = s;
          array_set = elim (Bool-cases (b.lines == null)) [
            | inl bare ↦ absurd (ground (arith, s.len, s.fits, spare, s.empty bare))
            | inr set ↦ set
          ];
          spare = ground (arith, s.len, s.fits, spare);
          errs_kept = refl;
        }
        split true full true e =
            let none_yet : ps ≡ [] = length-zero ps (ground (arith, s.fits, s.empty e)) in
            record {
              buf = record { lines = p; len = b.len; cap = 16 };
              after = record w {
                next = p;
                cell = update w.cell p (some (struct (pointers 16 ps)));
              };
              runs = ground (arith, full, e, s.empty e, none_yet, grants (16 * 4 % 2 ^ 32));
              holding = record {
                fresh = record {
                  unused = λ x h. ground (arith, h, s.fresh.unused x);
                  null_free = ground (arith, s.fresh.null_free);
                };
                len = s.len;
                fits = ground (arith, none_yet);
                bounded = omega arith;
                cap_set = λ h. refl;
                array = λ h. ground arith;
                empty = λ h. ground (arith, h);
                texts =
                    Texts-frame w.cell _ ps ls (λ x h. ground (arith, mem_apart x p ps h out))
                      s.texts;
                apart = out;
                array_new = ground (arith, s.others p, e, out, unused);
                texts_new = s.texts_new;
                others =
                    λ x h g. ground (arith, h, g, s.others x, e, s.null_free, s.fresh.null_free);
                null_free = s.null_free;
              };
              array_set = ground arith;
              spare = ground (arith, none_yet);
              errs_kept = refl;
            }
        split true full false e =
            let other : (p == b.lines) ≡ false = ground (arith, unused, s.array e) in
            let some_room : (b.cap == 0) ≡ false = s.cap_set e in
            let twice : b.cap * 2 * 4 % 2 ^ 32 / 4 ≡ b.cap * 2 = ground (arith, full, s.len) in
            record {
              buf = record { lines = p; len = b.len; cap = b.cap * 2 };
              after = record w {
                next = p;
                cell =
                    update (update w.cell p (some (struct (pointers (b.cap * 2) ps)))) b.lines none;
              };
              runs =
                  ground
                    (arith, full, e, some_room, twice, grants (b.cap * 2 * 4 % 2 ^ 32), s.array e);
              holding = record {
                fresh = record {
                  unused = λ x h. ground (arith, h, s.fresh.unused x);
                  null_free = ground (arith, s.fresh.null_free);
                };
                len = s.len;
                fits = ground (arith, full, s.len);
                bounded = ground (arith, full, s.len);
                cap_set = λ h. ground (arith, some_room);
                array = λ h. ground (arith, other);
                empty = λ h. ground (arith, h);
                texts =
                    Texts-frame w.cell _ ps ls
                      (λ x h.
                        ground (arith, mem_apart x p ps h out, mem_apart x b.lines ps h s.apart))
                      s.texts;
                apart = out;
                array_new = ground (arith, s.others p, other, out, unused);
                texts_new = s.texts_new;
                others = λ x h g. ground (arith, h, g, s.others x, s.array_new);
                null_free = s.null_free;
              };
              array_set = ground arith;
              spare = ground (arith, full, s.len, some_room);
              errs_kept = refl;
            }
