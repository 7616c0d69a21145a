-- ===== src/Tls/Keylog/Drain.antt =====
-- keylog_buf_drain_to of src/tls.c: the strings that it returns, and the memory that it leaves.
use mathlib.Core.List.{append-nil, append_assoc}
use openssl_wasm.Common.{
  ℕ, suc, ◌*◌, ◌/◌, ◌%◌, ◌^◌, ◌<◌, ◌≡◌, refl, sym, ap, ◌∙◌, Bool, true, false, ◌==◌, ltb,
  if◌then◌else◌, inl, inr, Bool-cases, none, some, List, [], ◌∷◌, ◌++◌, length, length-append,
  arith,
}
use openssl_wasm.Memory.{
  Queue, Ptr, null, Buffer, free, ◌>>◌, struct, World, Run, Cmd, done, update, and_then, pure,
}
use openssl_wasm.Memory.Contract.{IsFresh}
use openssl_wasm.Tls.Structs.{KeylogBuf, TlsStruct, strings}
use openssl_wasm.Tls.Keylog.{keylog_buf_init, drain_loop, keylog_buf_drain_to}
use openssl_wasm.Tls.Keylog.Held.{
  Memory, length-zero, mem, mem_apart, mem_unused, Texts-frame, IsHolding,
}
use openssl_wasm.Tls.Keylog.Drained.{all_no_nul, ptrs, StringsAt-frame, Drained, IsDraining}
use openssl_wasm.Tls.Keylog.Append.{append_all, append_all-Holds, init-IsHolding}
use openssl_wasm.Tls.Keylog.Step.{step-Stepped}

module _ {O : Type 0} (room : ℕ → Bool) (grants : (n : ℕ) → room n ≡ true) (m : Memory O) where
  -- The loop has run to its end.
  record Looped (run : Run O TlsStruct (Unit {0})) (errs : Queue) (p out cap k : ℕ) (ps : List Ptr)
      (ls : List (List ℕ)) : Type 0 where
    after : World O TlsStruct
    ps1 : List Ptr
    bufs : List Buffer
    runs : run ≡ done tt after
    draining : IsDraining m after p out cap k ps ps1 bufs ls [] []
    errs_kept : after.errs ≡ errs

  loop-Looped :
      (w : World O TlsStruct) (p out cap k : ℕ) (ps ps1 : List Ptr) (bufs : List Buffer)
      (ls1 : List (List ℕ)) (qs : List Ptr) (ls2 : List (List ℕ))
      → IsDraining m w p out cap k ps ps1 bufs ls1 qs ls2
      → all_no_nul ls2 ≡ true
      → Looped (drain_loop room (length qs) out p (length ps1) w) w.errs p out cap k ps (ls1 ++ ls2)
  unfolding drain_loop
  loop-Looped w p out cap k ps ps1 bufs ls1 [] [] s clean = record {
    after = w;
    ps1 = ps1;
    bufs = bufs;
    runs = refl;
    draining = rw (append-nil ls1) s;
    errs_kept = refl;
  }
  loop-Looped w p out cap k ps ps1 bufs ls1 [] (l ∷ ls2) s clean = absurd s.texts
  loop-Looped w p out cap k ps ps1 bufs ls1 (q ∷ qs) [] s clean = absurd s.texts
  loop-Looped w p out cap k ps ps1 bufs ls1 (q ∷ qs) (l ∷ ls2) s clean =
      let a =
        step-Stepped room grants m w p out cap k ps ps1 bufs ls1 q qs l ls2 s
          (ground (arith, clean)) in
      let t =
        loop-Looped a.after p out cap k ps (ps1 ++ q ∷ []) (bufs ++ a.buf ∷ []) (ls1 ++ l ∷ []) qs
          ls2 a.draining (ground (arith, clean)) in
      record {
        after = t.after;
        ps1 = t.ps1;
        bufs = t.bufs;
        runs =
            a.runs
            ∙ ap (λ i. drain_loop room (length qs) out p i a.after)
                (sym (length-append ps1 (q ∷ [])))
            ∙ t.runs;
        draining = rw (← append_assoc ls1 (l ∷ []) ls2) t.draining;
        errs_kept = t.errs_kept ∙ a.errs_kept;
      }

  -- The room of the array of strings, in bytes.
  abbrev out_size : ℕ → ℕ
  out_size n = if ltb 0 n then n * 8 % 2 ^ 32 else 8

  abbrev started : ℕ → World O TlsStruct → World O TlsStruct
  started n w = record w {
    next = suc w.next;
    cell = update w.cell (suc w.next) (some (struct (strings (out_size n / 8) [])));
  }

  start-IsDraining :
      (w : World O TlsStruct) (b : KeylogBuf) (ps : List Ptr) (ls : List (List ℕ))
      → IsHolding m w b ps ls
      → length ps < 2 ^ 28
      → IsDraining m
          (started b.len w)
          b.lines
          (suc w.next)
          b.cap
          (out_size b.len / 8)
          ps
          []
          []
          []
          ps
          ls
  start-IsDraining w b ps ls s small =
      let out = suc w.next in
      let unused : w.cell out ≡ none = s.fresh.unused out (omega arith) in
      let p_out : (b.lines == out) ≡ false = elim (Bool-cases (b.lines == null)) [
        | inl bare ↦ ground (arith, bare)
        | inr set ↦ ground (arith, unused, s.array set)
      ] in
      let out_ps : mem out ps ≡ false = mem_unused w.cell out ps ls unused s.texts in
      record {
        fresh = record {
          unused = λ x h. ground (arith, h, s.fresh.unused x);
          null_free = ground (arith, s.fresh.null_free);
        };
        out_held = ground arith;
        array = λ h. ground (arith, s.array h, p_out);
        bare = λ h. length-zero ps (ground (arith, s.empty h, s.fits));
        split = refl;
        count = refl;
        fits = ground (arith, s.len, s.fits);
        texts =
            Texts-frame w.cell _ ps ls (λ x h. ground (arith, mem_apart x out ps h out_ps)) s.texts;
        strs = tt;
        out_set = ground arith;
        p_out = p_out;
        p_qs = s.apart;
        out_qs = out_ps;
        p_bufs = refl;
        out_bufs = refl;
        apart = λ x h. refl;
        p_new = s.array_new;
        out_new = ground (arith, unused, s.others out, p_out, out_ps);
        qs_new = s.texts_new;
        bufs_new = tt;
        others = λ x h1 h2 h3 h4. ground (arith, h1, h2, h3, s.others x);
      }

  -- The end of keylog_buf_drain_to: free(b->lines), and an empty buffer.
  abbrev ended : Ptr → Ptr → ℕ → Cmd O TlsStruct ((Ptr × ℕ) × KeylogBuf)
  ended p out n = do free p; pure ((out, n), keylog_buf_init)

  end-Drained :
      (w : World O TlsStruct) (p out cap k : ℕ) (ps ps1 : List Ptr) (bufs : List Buffer)
      (ls : List (List ℕ))
      → IsDraining m w p out cap k ps ps1 bufs ls [] []
      → Drained m (ended p out (length ls) w) ls w.errs
  end-Drained w p out cap k ps ps1 bufs ls d = elim (Bool-cases (p == null)) [
    | inl bare ↦ record {
      out = out;
      room_for = k;
      bufs = bufs;
      after = w;
      runs = ground (arith, bare);
      array = d.out_held;
      texts = d.strs;
      out_new = d.out_new;
      texts_new = d.bufs_new;
      others = λ x h1 h2. ground (arith, bare, h1, h2, d.others x, d.p_new, d.fresh.null_free);
      errs_kept = refl;
    }
    | inr set ↦ record {
      out = out;
      room_for = k;
      bufs = bufs;
      after = record w { cell = update w.cell p none };
      runs = ground (arith, set, d.array set);
      array = ground (arith, d.out_held, d.p_out);
      texts =
          StringsAt-frame w.cell _ bufs ls
            (λ x h. ground (arith, mem_apart x p (ptrs bufs) h d.p_bufs)) d.strs;
      out_new = d.out_new;
      texts_new = d.bufs_new;
      others = λ x h1 h2. ground (arith, h1, h2, d.others x, d.p_new);
      errs_kept = refl;
    }
  ]

  pub drain_to-Drained :
      (w : World O TlsStruct) (b : KeylogBuf) (ps : List Ptr) (ls : List (List ℕ))
      → IsHolding m w b ps ls
      → length ps < 2 ^ 28
      → length ls ≡ length ps
      → all_no_nul ls ≡ true
      → Drained m (keylog_buf_drain_to room b w) ls w.errs
  unfolding keylog_buf_drain_to
  drain_to-Drained w b ps ls s small same clean =
      let out = suc w.next in
      let k = out_size b.len / 8 in
      let t =
        loop-Looped (started b.len w) b.lines out b.cap k ps [] [] [] ps ls
          (start-IsDraining w b ps ls s small) clean in
      let by_len : drain_loop room b.len out b.lines 0 (started b.len w) ≡ done tt t.after =
        ap (λ n. drain_loop room n out b.lines 0 (started b.len w)) s.len ∙ t.runs in
      let runs : keylog_buf_drain_to room b w ≡ ended b.lines out (length ls) t.after =
        ground (arith, grants (out_size b.len), by_len, s.len, same) in
      rw (runs, ← t.errs_kept)
        (end-Drained t.after b.lines out b.cap k ps t.ps1 t.bufs ls t.draining)

-- The lines that keylog_buf_append has taken, one after the other from an empty buffer on,
-- are the strings that keylog_buf_drain_to returns, in this order. The buffer is then empty,
-- its lines and its array are freed, and but for the strings and their array, which are new, the
-- memory is as before the first line. This holds for fewer than 2^28 lines without a NUL inside,
-- where malloc and realloc do not fail.
pub keylog_buf_drain_to_lem :
    {O : Type 0} (room : ℕ → Bool)
    → ((n : ℕ) → room n ≡ true)
    → (ls : List (List ℕ)) (w : World O TlsStruct) → IsFresh w
    → length ls < 2 ^ 28
    → all_no_nul ls ≡ true
    → Drained w.cell
        (and_then (append_all room keylog_buf_init ls w) (keylog_buf_drain_to room))
        ls
        w.errs
keylog_buf_drain_to_lem room grants ls w fresh small clean =
    let a =
      append_all-Holds room grants w.cell ls w keylog_buf_init [] []
        (init-IsHolding room grants w.cell w fresh) (omega arith) in
    let d =
      drain_to-Drained room grants w.cell a.after a.buf a.at ls a.holding
        (ground (arith, a.count_of)) (ground (arith, a.count_of)) clean in
    rw (a.runs, ← a.errs_kept) d
