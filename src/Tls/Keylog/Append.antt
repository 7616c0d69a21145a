-- ===== src/Tls/Keylog/Append.antt =====
-- keylog_buf_append of src/tls.c, one line after the other.
use mathlib.Core.List.{append-nil, append_assoc}
use openssl_wasm.Common.{
  ℕ, suc, ◌+◌, ◌^◌, ◌<◌, ◌≡◌, refl, ap, ◌∙◌, Bool, true, false, ◌==◌, none, some, List, [], ◌∷◌,
  ◌++◌, length, length-append, arith,
}
use openssl_wasm.Memory.{Queue, Ptr, struct, World, Run, Cmd, done, update, and_then, ◌>>=◌, pure}
use openssl_wasm.Memory.Contract.{IsFresh}
use openssl_wasm.Tls.CString.{copy_c_string_runs, with_copy}
use openssl_wasm.Tls.Structs.{KeylogBuf, TlsStruct, pointers}
use openssl_wasm.Tls.Keylog.{keylog_buf_init, keylog_buf_append}
use openssl_wasm.Tls.Keylog.Held.{
  Memory, mem, mem-append, mem_apart, mem_unused, Texts-frame, Texts-snoc, AllNew-snoc, IsHolding,
  grown-HasRoom,
}

-- keylog_buf_append of one line after the other.
abbrev pub append_all :
    {O : Type 0} → (ℕ → Bool) → KeylogBuf → List (List ℕ) → Cmd O TlsStruct KeylogBuf
append_all room b [] = pure b
append_all room b (l ∷ ls) = do b' ← keylog_buf_append room b l; append_all room b' ls

module _ {O : Type 0} where
  -- The run ends with a buffer that holds these lines.
  pub record Holds (m : Memory O) (run : Run O TlsStruct KeylogBuf) (errs : Queue) (count : ℕ)
      (ls : List (List ℕ)) : Type 0 where
    pub buf : KeylogBuf
    pub after : World O TlsStruct
    pub at : List Ptr
    pub runs : run ≡ done buf after
    pub holding : IsHolding m after buf at ls
    pub count_of : length at ≡ count
    pub errs_kept : after.errs ≡ errs

  module _ (room : ℕ → Bool) (grants : (n : ℕ) → room n ≡ true) (m : Memory O) where
    append-Holds :
        (w : World O TlsStruct) (b : KeylogBuf) (ps : List Ptr) (ls : List (List ℕ)) (l : List ℕ)
        → IsHolding m w b ps ls
        → length ps < 2 ^ 28
        → Holds m (keylog_buf_append room b l w) w.errs (suc (length ps)) (ls ++ l ∷ [])
    unfolding keylog_buf_append
    append-Holds w b ps ls l s small =
        let g = grown-HasRoom room grants m w b ps ls s small in
        let h = g.holding in
        let q = suc g.after.next in
        let copied = copy_c_string_runs room l g.after (grants (length l + 1)) in
        let c = (with_copy room l g.after).cell in
        let unused : g.after.cell q ≡ none = h.fresh.unused q (omega arith) in
        let array = h.array g.array_set in
        let other : (q == g.buf.lines) ≡ false = ground (arith, unused, array) in
        let out : mem q ps ≡ false = mem_unused g.after.cell q ps ls unused h.texts in
        let filled : TlsStruct = pointers g.buf.cap (ps ++ q ∷ []) in
        record {
          buf = record { lines = g.buf.lines; len = g.buf.len + 1; cap = g.buf.cap };
          after = record {
            next = q;
            cell = update c g.buf.lines (some (struct filled));
            errs = g.after.errs;
          };
          at = ps ++ q ∷ [];
          runs = ground (arith, g.runs, copied, array, other, h.len, g.spare);
          holding = record {
            fresh = record {
              unused = λ x h'. ground (arith, h', h.fresh.unused x, array);
              null_free = ground (arith, h.fresh.null_free, array);
            };
            len = ground (arith, h.len, length-append ps (q ∷ []));
            fits = ground (arith, g.spare, length-append ps (q ∷ []));
            bounded = ground (arith, h.bounded, length-append ps (q ∷ []));
            cap_set = h.cap_set;
            array = λ h'. ground (arith);
            empty = h.empty;
            texts =
                Texts-snoc _ ps ls q l
                  (Texts-frame g.after.cell _ ps ls
                    (λ x h'.
                      ground
                        (arith, mem_apart x q ps h' out, mem_apart x g.buf.lines ps h' h.apart))
                    h.texts)
                  (ground (arith, other)) out (ground arith);
            apart = ground (arith, mem-append g.buf.lines ps q, h.apart, other);
            array_new = h.array_new;
            texts_new =
                AllNew-snoc m ps q h.texts_new (ground (arith, h.others q, other, out, unused));
            others = λ x h1 h2. ground (arith, h1, h2, mem-append x ps q, h.others x);
            null_free = h.null_free;
          };
          count_of = ground (arith, length-append ps (q ∷ []));
          errs_kept = g.errs_kept;
        }

    -- An empty buffer holds no line.
    pub init-IsHolding :
        (w : World O TlsStruct) → IsFresh w → IsHolding w.cell w keylog_buf_init [] []
    unfolding keylog_buf_init
    init-IsHolding w fresh = record {
      fresh = fresh;
      len = refl;
      fits = omega arith;
      bounded = omega arith;
      cap_set = λ h. absurd (ground (arith, h));
      array = λ h. absurd (ground (arith, h));
      empty = λ h. refl;
      texts = tt;
      apart = refl;
      array_new = fresh.null_free;
      texts_new = tt;
      others = λ x h1 h2. refl;
      null_free = fresh.null_free;
    }

    pub append_all-Holds :
        (ls : List (List ℕ)) (w : World O TlsStruct) (b : KeylogBuf) (ps : List Ptr)
        (old : List (List ℕ))
        → IsHolding m w b ps old
        → length ps + length ls < 2 ^ 28
        → Holds m (append_all room b ls w) w.errs (length ps + length ls) (old ++ ls)
    append_all-Holds [] w b ps old s small = record {
      buf = b;
      after = w;
      at = ps;
      runs = refl;
      holding = rw (append-nil old) s;
      count_of = omega arith;
      errs_kept = refl;
    }
    append_all-Holds (l ∷ ls) w b ps old s small =
        let a = append-Holds w b ps old l s (omega arith) in
        let t =
          append_all-Holds ls a.after a.buf a.at (old ++ l ∷ []) a.holding
            (ground (arith, a.count_of)) in
        record {
          buf = t.buf;
          after = t.after;
          at = t.at;
          runs = ap (λ r. and_then r (λ b'. append_all room b' ls)) a.runs ∙ t.runs;
          holding = rw (← append_assoc old (l ∷ []) ls) t.holding;
          count_of = ground (arith, t.count_of, a.count_of);
          errs_kept = t.errs_kept ∙ a.errs_kept;
        }
