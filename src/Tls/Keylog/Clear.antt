-- ===== src/Tls/Keylog/Clear.antt =====
-- keylog_buf_clear of src/tls.c.
use openssl_wasm.Common.{
  ℕ, suc, ◌^◌, ◌<◌, ◌≡◌, refl, sym, ap, ◌∙◌, Bool, true, false, ◌==◌, inl, inr, Bool-cases, none,
  some, List, [], ◌∷◌, ◌++◌, length, get_elem?, length-append, arith,
}
use mathlib.Core.List.{append_assoc}
use openssl_wasm.Memory.{Ptr, null, struct, World, Cmd, update, and_then, ◌>>◌, pure, free}
use openssl_wasm.Memory.Contract.{IsFresh, Returns}
use openssl_wasm.Tls.Structs.{KeylogBuf, TlsStruct, pointers}
use openssl_wasm.Tls.Keylog.{keylog_buf_init, clear_loop, keylog_buf_clear}
use openssl_wasm.Tls.Keylog.Held.{
  Memory, length-zero, mem, mem_apart, Texts, Texts-frame, AllNew, IsHolding,
}
use openssl_wasm.Tls.Keylog.Drained.{get_elem?-append}
use openssl_wasm.Tls.Keylog.Append.{append_all, append_all-Holds, init-IsHolding}

module _ {O : Type 0} (m : Memory O) where
  -- The loop of keylog_buf_clear has freed the lines before those at `qs`.
  record IsClearing (w : World O TlsStruct) (p cap : ℕ) (ps ps1 qs : List Ptr) (ls : List (List ℕ))
      : Type 0 where
    array : (p == null) ≡ false → w.cell p ≡ some (struct (pointers cap ps))
    bare : (p == null) ≡ true → qs ≡ []
    split : ps ≡ ps1 ++ qs
    texts : Texts w.cell qs ls
    p_qs : mem p qs ≡ false
    p_new : m p ≡ none
    qs_new : AllNew m qs
    null_free : w.cell null ≡ none
    others : (x : Ptr) → (x == p) ≡ false → mem x qs ≡ false → w.cell x ≡ m x

  -- The loop, and the free behind it.
  abbrev rest : ℕ → Ptr → ℕ → Cmd O TlsStruct KeylogBuf
  rest n p i = do clear_loop n p i; free p; pure keylog_buf_init

  rest-Returns :
      (w : World O TlsStruct) (p cap : ℕ) (ps ps1 qs : List Ptr) (ls : List (List ℕ))
      → IsClearing w p cap ps ps1 qs ls
      → Returns m (rest (length qs) p (length ps1) w) (keylog_buf_init, w.errs)
  unfolding clear_loop
  rest-Returns w p cap ps ps1 [] ls s = elim (Bool-cases (p == null)) [
    | inl bare ↦ ground (arith, bare, s.others, s.p_new, s.null_free)
    | inr set ↦ ground (arith, set, s.array set, s.others, s.p_new)
  ]
  rest-Returns w p cap ps ps1 (q ∷ qs) [] s = absurd s.texts
  rest-Returns w p cap ps ps1 (q ∷ qs) (l ∷ ls) s =
      let set : (p == null) ≡ false = elim (Bool-cases (p == null)) [
        | inl bare ↦ absurd (ground (arith, s.bare bare))
        | inr set ↦ set
      ] in
      let elem : get_elem? ps (length ps1) ≡ some q =
        ap (λ z. get_elem? z (length ps1)) s.split ∙ get_elem?-append ps1 q qs in
      let p_q : (p == q) ≡ false = ground (arith, s.p_qs) in
      let after : World O TlsStruct = record w { cell = update w.cell q none } in
      let next : IsClearing after p cap ps (ps1 ++ q ∷ []) qs ls = record {
        array = λ h. ground (arith, s.array set, p_q);
        bare = λ h. absurd (ground (arith, h, set));
        split = s.split ∙ sym (append_assoc ps1 (q ∷ []) qs);
        texts =
            Texts-frame w.cell _ qs ls (λ x h. ground (arith, mem_apart x q qs h s.texts.1))
              s.texts.3;
        p_qs = ground (arith, s.p_qs);
        p_new = s.p_new;
        qs_new = s.qs_new.1;
        null_free = ground (arith, s.null_free);
        others = λ x h1 h2. ground (arith, h1, h2, s.others x, s.qs_new.0);
      } in
      let runs : rest (suc (length qs)) p (length ps1) w
          ≡ rest (length qs) p (length (ps1 ++ q ∷ [])) after =
        ground (arith, s.array set, elem, s.texts.0, s.texts.2, length-append ps1 (q ∷ [])) in
      rw runs (rest-Returns after p cap ps (ps1 ++ q ∷ []) qs ls next)

  pub clear-Returns :
      (w : World O TlsStruct) (b : KeylogBuf) (ps : List Ptr) (ls : List (List ℕ))
      → IsHolding m w b ps ls
      → Returns m (keylog_buf_clear b w) (keylog_buf_init, w.errs)
  unfolding keylog_buf_clear
  clear-Returns w b ps ls s = rw s.len (
      rest-Returns w b.lines b.cap ps [] ps ls (record {
        array = s.array;
        bare = λ h. length-zero ps (ground (arith, s.empty h, s.fits));
        split = refl;
        texts = s.texts;
        p_qs = s.apart;
        p_new = s.array_new;
        qs_new = s.texts_new;
        null_free = s.fresh.null_free;
        others = s.others;
      }))

-- keylog_buf_clear, after keylog_buf_append of any lines from an empty buffer on, frees the lines and
-- the array, each once, and leaves an empty buffer and the memory as before the first line. This
-- holds for fewer than 2^28 lines, where malloc and realloc do not fail.
pub keylog_buf_clear_lem :
    {O : Type 0} (room : ℕ → Bool)
    → ((n : ℕ) → room n ≡ true)
    → (ls : List (List ℕ)) (w : World O TlsStruct) → IsFresh w
    → length ls < 2 ^ 28
    → Returns w.cell
        (and_then (append_all room keylog_buf_init ls w) keylog_buf_clear)
        (keylog_buf_init, w.errs)
keylog_buf_clear_lem room grants ls w fresh small =
    let a =
      append_all-Holds room grants w.cell ls w keylog_buf_init [] []
        (init-IsHolding room grants w.cell w fresh) (omega arith) in
    rw (a.runs, ← a.errs_kept) (clear-Returns w.cell a.after a.buf a.at ls a.holding)
