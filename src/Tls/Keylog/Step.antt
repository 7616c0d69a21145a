-- ===== src/Tls/Keylog/Step.antt =====
-- One round of the loop of keylog_buf_drain_to in src/tls.c.
use mathlib.Core.List.{append_assoc}
use openssl_wasm.Common.{
  ℕ, suc, ◌+◌, ◌≡◌, refl, sym, ap, ◌∙◌, Bool, true, false, ◌||◌, ◌==◌, inl, inr, Bool-cases, none,
  some, List, [], ◌∷◌, ◌++◌, length, get_elem?, length-append, arith,
}
use openssl_wasm.Memory.{Ptr, null, Buffer, raw, struct, World, Run, update, at_least_one}
use openssl_wasm.Tls.CString.{no_nul, c_string-copy, string_take_runs, with_string}
use openssl_wasm.Tls.Structs.{TlsStruct, strings}
use openssl_wasm.Tls.Keylog.{drain_loop}
use openssl_wasm.Tls.Keylog.Held.{
  Memory, mem, mem-append, mem_apart, mem_unused, Texts-frame, AllNew-snoc,
}
use openssl_wasm.Tls.Keylog.Drained.{
  ptrs, ptrs-snoc, get_elem?-append, StringsAt-frame, StringsAt-snoc, strings_unused, IsDraining,
}

mem-ptrs-snoc :
    (x : Ptr) (bs : List Buffer) (b : Buffer)
    → mem x (ptrs (bs ++ b ∷ [])) ≡ (mem x (ptrs bs) || x == b.ptr)
mem-ptrs-snoc x bs b = ap (mem x) (ptrs-snoc bs b) ∙ mem-append x (ptrs bs) b.ptr

module _ {O : Type 0} (room : ℕ → Bool) (grants : (n : ℕ) → room n ≡ true) (m : Memory O) where
  -- One round of the loop.
  pub record Stepped (run next : World O TlsStruct → Run O TlsStruct (Unit {0}))
      (w : World O TlsStruct) (p out cap k : ℕ) (ps ps1 : List Ptr) (bufs : List Buffer)
      (ls1 : List (List ℕ)) (qs : List Ptr) (ls2 : List (List ℕ)) : Type 0 where
    pub after : World O TlsStruct
    pub buf : Buffer
    pub runs : run w ≡ next after
    pub draining : IsDraining m after p out cap k ps ps1 (bufs ++ buf ∷ []) ls1 qs ls2
    pub errs_kept : after.errs ≡ w.errs

  pub step-Stepped :
      (w : World O TlsStruct) (p out cap k : ℕ) (ps ps1 : List Ptr) (bufs : List Buffer)
      (ls1 : List (List ℕ)) (q : Ptr) (qs : List Ptr) (l : List ℕ) (ls2 : List (List ℕ))
      → IsDraining m w p out cap k ps ps1 bufs ls1 (q ∷ qs) (l ∷ ls2)
      → no_nul l ≡ true
      → Stepped
          (drain_loop room (suc (length qs)) out p (length ps1))
          (drain_loop room (length qs) out p (length ps1 + 1))
          w
          p
          out
          cap
          k
          ps
          (ps1 ++ q ∷ [])
          bufs
          (ls1 ++ l ∷ [])
          qs
          ls2
  unfolding drain_loop
  step-Stepped w p out cap k ps ps1 bufs ls1 q qs l ls2 s clean =
      let t = suc w.next in
      let size = at_least_one (length l) in
      let copied = string_take_runs room l w (grants size) in
      let c = (with_string room l w).cell in
      let b : Buffer = record { ptr = t; len = length l } in
      let unused : w.cell t ≡ none = s.fresh.unused t (omega arith) in
      let held : w.cell q ≡ some (raw (length l + 1) (l ++ 0 ∷ [])) = s.texts.0 in
      let q_set : (q == null) ≡ false = s.texts.2 in
      let set : (p == null) ≡ false = elim (Bool-cases (p == null)) [
        | inl bare ↦ absurd (ground (arith, s.bare bare))
        | inr set ↦ set
      ] in
      let array = s.array set in
      let p_q : (p == q) ≡ false = ground (arith, s.p_qs) in
      let out_q : (out == q) ≡ false = ground (arith, s.out_qs) in
      let t_p : (t == p) ≡ false = ground (arith, unused, array) in
      let t_out : (t == out) ≡ false = ground (arith, unused, s.out_held) in
      let t_q : (t == q) ≡ false = ground (arith, unused, held) in
      let t_qs : mem t (q ∷ qs) ≡ false = mem_unused w.cell t (q ∷ qs) (l ∷ ls2) unused s.texts in
      let t_bufs : mem t (ptrs bufs) ≡ false = strings_unused w.cell t bufs ls1 unused s.strs in
      let q_bufs : mem q (ptrs bufs) ≡ false = s.apart q (ground arith) in
      let elem : get_elem? ps (length ps1) ≡ some q =
        ap (λ z. get_elem? z (length ps1)) s.split ∙ get_elem?-append ps1 q qs in
      record {
        after = record {
          next = t;
          cell = update (update c out (some (struct (strings k (bufs ++ b ∷ []))))) q none;
          errs = w.errs;
        };
        buf = b;
        runs = ground (
          arith,
          array,
          elem,
          held,
          c_string-copy l clean,
          copied,
          t_out,
          t_q,
          s.out_held,
          s.count,
          s.fits,
          out_q,
          q_set,
        );
        draining = record {
          fresh = record {
            unused = λ x h. ground (arith, h, s.fresh.unused x, s.out_held);
            null_free = ground (arith, s.fresh.null_free, s.out_set);
          };
          out_held = ground (arith, out_q);
          array = λ h. ground (arith, array, p_q, s.p_out, t_p);
          bare = λ h. absurd (ground (arith, h, set));
          split = s.split ∙ sym (append_assoc ps1 (q ∷ []) qs);
          count =
              length-append ps1 (q ∷ [])
              ∙ ap (λ n. n + 1) s.count
              ∙ sym (length-append bufs (b ∷ []));
          fits = ground (arith, s.fits, length-append bufs (b ∷ []));
          texts =
              Texts-frame w.cell _ qs ls2
                (λ x h. ground (
                  arith,
                  mem_apart x q qs h s.texts.1,
                  mem_apart x out qs h (ground (arith, s.out_qs)),
                  mem_apart x t qs h (ground (arith, t_qs)),
                ))
                s.texts.3;
          strs =
              StringsAt-snoc _ bufs ls1 b l
                (StringsAt-frame w.cell _ bufs ls1
                  (λ x h. ground (
                    arith,
                    mem_apart x q (ptrs bufs) h q_bufs,
                    mem_apart x out (ptrs bufs) h s.out_bufs,
                    mem_apart x t (ptrs bufs) h t_bufs,
                  ))
                  s.strs)
                (ground (arith, t_out, t_q)) refl;
          out_set = s.out_set;
          p_out = s.p_out;
          p_qs = ground (arith, s.p_qs);
          out_qs = ground (arith, s.out_qs);
          p_bufs = ground (arith, mem-ptrs-snoc p bufs b, s.p_bufs, t_p);
          out_bufs = ground (arith, mem-ptrs-snoc out bufs b, s.out_bufs, t_out);
          apart = λ x h. ground (
            arith,
            mem-ptrs-snoc x bufs b,
            s.apart x,
            h,
            mem_apart x t qs h (ground (arith, t_qs)),
          );
          p_new = s.p_new;
          out_new = s.out_new;
          qs_new = s.qs_new.1;
          bufs_new = rw (ptrs-snoc bufs b) (
              AllNew-snoc m (ptrs bufs) t s.bufs_new
                (ground (arith, s.others t, t_p, t_out, t_qs, t_bufs, unused)));
          others = λ x h1 h2 h3 h4.
              ground (arith, h1, h2, h3, h4, mem-ptrs-snoc x bufs b, s.others x, s.qs_new.0);
        };
        errs_kept = refl;
      }
