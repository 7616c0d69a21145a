-- ===== src/Errors/Loop.antt =====
-- The loop of drain_errors in src/component.c.
use mathlib.Core.List.{append-nil}
use openssl_wasm.Common.{
  ℕ, suc, ◌+◌, ◌*◌, ◌/◌, ◌^◌, ◌≤◌, ◌<◌, ◌≡◌, refl, ap, ◌∙◌, Bool, true, false, not, ◌&&◌, leb, ◌==◌,
  if◌then◌else◌, inl, inr, Bool-cases, Option, none, some, List, [], ◌∷◌, ◌++◌, length,
  length-append, arith,
}
use openssl_wasm.Memory.{
  ErrEntry, Queue, Ptr, null, Cell, World, Run, done, abort, fault, struct, update,
}
use openssl_wasm.Memory.Contract.{IsFresh}
use openssl_wasm.Errors.Info.{ErrorInfo, ErrText}
use openssl_wasm.Errors.Drain.{ErrorArray, array_size, grown, drain_loop, drain_errors}
use openssl_wasm.Errors.Contract.{describe_entry-Adds}

abbrev pub codes : List ErrEntry → List ℕ
codes [] = []
codes (e ∷ q) = e.code ∷ codes q

abbrev pub info_codes : List ErrorInfo → List ℕ
info_codes [] = []
info_codes (i ∷ is) = i.code ∷ info_codes is

-- No entry has the code 0, which ERR_get_error_all gives for an empty queue.
abbrev pub all_set : List ErrEntry → Bool
all_set [] = true
all_set (e ∷ q) = not (e.code == 0) && all_set q

-- The codes of the entries of an array that holds them within its room.
abbrev pub codes_in : Option (Cell ⊥ ErrorArray) → Option (List ℕ)
codes_in (some (struct a)) =
    if leb (length a.infos) a.room_for then some (info_codes a.infos) else none
codes_in _ = none

-- The call returns an array of these codes in order, and their number, and leaves the queue empty.
abbrev pub Drained : Run ⊥ ErrorArray (Ptr × ℕ) → List ℕ → Type 0
Drained (done (p, n) w) cs = (codes_in (w.cell p) ≡ some cs) × (n ≡ length cs) × (w.errs ≡ [])
Drained abort cs = ⊥
Drained fault cs = ⊥

info_codes-append :
    (is : List ErrorInfo) (i : ErrorInfo) (cs : List ℕ)
    → info_codes (is ++ i ∷ []) ++ cs ≡ info_codes is ++ i.code ∷ cs
info_codes-append [] i cs = refl
info_codes-append (j ∷ is) i cs = ap (λ x. j.code ∷ x) (info_codes-append is i cs)

length-info_codes : (is : List ErrorInfo) → length (info_codes is) ≡ length is
length-info_codes [] = refl
length-info_codes (i ∷ is) = ap suc (length-info_codes is)

-- The array at `buf` has room for `cap` entries and holds `infos`.
record IsFilling (w : World ⊥ ErrorArray) (buf : Ptr) (cap : ℕ) (infos : List ErrorInfo)
    : Type 0 where
  held : w.cell buf ≡ some (struct (record { room_for = cap; infos = infos }))
  set : (buf == null) ≡ false
  old : buf ≤ w.next
  fresh : IsFresh w

-- `grown` gives an array of the same entries with room for one more.
record HasRoom (run : Run ⊥ ErrorArray (Ptr × ℕ)) (q : Queue) (infos : List ErrorInfo)
    : Type 0 where
  buf : Ptr
  cap : ℕ
  after : World ⊥ ErrorArray
  runs : run ≡ done (buf, cap) after
  filling : IsFilling after buf cap infos
  spare : length infos < cap
  bounded : cap ≤ 8 + 2 * length infos
  errs : after.errs ≡ q

module _ (room : ℕ → Bool) (grants : (n : ℕ) → room n ≡ true) (text : ErrText) where
  grown-HasRoom :
      (w : World ⊥ ErrorArray) (buf : Ptr) (cap : ℕ) (infos : List ErrorInfo)
      → IsFilling w buf cap infos
      → 1 ≤ cap
      → length infos ≤ cap
      → cap ≤ 8 + 2 * length infos
      → length infos < 2 ^ 25
      → HasRoom (grown room text buf cap (length infos) w) w.errs infos
  grown-HasRoom w buf cap infos s pos fits bounded small = elim (Bool-cases (length infos == cap)) [
    | inr spare ↦ record {
      buf = buf;
      cap = cap;
      after = w;
      runs = ground (arith, spare);
      filling = s;
      spare = ground arith;
      bounded = bounded;
      errs = refl;
    }
    | inl full ↦
        let p = suc w.next in
        let twice : array_size (cap * 2) / 56 ≡ cap * 2 = ground arith in
        record {
          buf = p;
          cap = cap * 2;
          after = record {
            next = p;
            cell =
                update
                  (update w.cell p (some (struct (record { room_for = cap * 2; infos = infos }))))
                  buf none;
            errs = w.errs;
          };
          runs = ground (arith, full, twice, grants (array_size (cap * 2)), s.held, s.set, s.old);
          filling = record {
            held = ground (arith, s.old);
            set = ground arith;
            old = omega arith;
            fresh = record {
              unused = λ x h. ground (arith, h, s.fresh.unused x);
              null_free = ground (arith, s.fresh.null_free);
            };
          };
          spare = ground arith;
          bounded = ground arith;
          errs = refl;
        }
  ]

  loop_drains :
      (q : Queue) (w : World ⊥ ErrorArray) (buf : Ptr) (cap n : ℕ) (infos : List ErrorInfo)
      → w.errs ≡ q
      → IsFilling w buf cap infos
      → n ≡ length infos
      → 1 ≤ cap
      → n ≤ cap
      → cap ≤ 8 + 2 * n
      → n + length q < 2 ^ 25
      → all_set q ≡ true
      → Drained (drain_loop room text (suc (length q)) buf cap n w) (info_codes infos ++ codes q)
  unfolding drain_loop
  loop_drains [] w buf cap n infos eq s en pos fits bounded small set =
      ground (arith, eq, s.held, en, append-nil (info_codes infos), length-info_codes infos)
  loop_drains (e ∷ q) w buf cap n infos eq s en pos fits bounded small set =
      let w1 : World ⊥ ErrorArray = record w { errs = q } in
      let s1 : IsFilling w1 buf cap infos = record {
        held = s.held;
        set = s.set;
        old = s.old;
        fresh = record { unused = s.fresh.unused; null_free = s.fresh.null_free };
      } in
      let g = grown-HasRoom w1 buf cap infos s1 pos (ground arith) (ground arith) (ground arith) in
      let d = describe_entry-Adds room grants text e g.after g.filling.fresh in
      let kept_array = d.kept g.buf g.filling.old in
      let w2 : World ⊥ ErrorArray = record (d.after) {
        cell =
            update d.after.cell g.buf
              (some (struct (record { room_for = g.cap; infos = infos ++ d.result ∷ [] })));
      } in
      let s2 : IsFilling w2 g.buf g.cap (infos ++ d.result ∷ []) = record {
        held = ground arith;
        set = g.filling.set;
        old = ground (arith, g.filling.old, d.grows);
        fresh = record {
          unused = λ x h. ground (arith, h, d.fresh.unused x, g.filling.old, d.grows);
          null_free = ground (arith, d.fresh.null_free, g.filling.set);
        };
      } in
      let at_len : grown room text buf cap n w1 ≡ done (g.buf, g.cap) g.after = rw en (g.runs) in
      let runs : drain_loop room text (suc (suc (length q))) buf cap n w
          ≡ drain_loop room text (suc (length q)) g.buf g.cap (n + 1) w2 =
        ground (arith, eq, at_len, d.runs, g.filling.held, kept_array, g.spare) in
      let same : info_codes (infos ++ d.result ∷ []) ++ codes q
          ≡ info_codes infos ++ codes (e ∷ q) =
        info_codes-append infos d.result (codes q)
        ∙ ap (λ c. info_codes infos ++ c ∷ codes q) d.holds in
      rw (runs, ← same)
        (loop_drains q w2 g.buf g.cap (n + 1) (infos ++ d.result ∷ []) (d.errs_kept ∙ g.errs) s2
          (ground (arith, length-append infos (d.result ∷ []))) (ground (arith, g.spare))
          (ground (arith, g.spare)) (ground (arith, g.bounded)) (ground arith) (ground arith))

  -- drain_errors returns an array with the code of every entry of the queue, oldest first, within
  -- the room that the array has been grown to, and their number, and leaves the queue empty: the
  -- loop ends, and no write is out of bounds. This holds for a queue of fewer than 2^25 entries with
  -- codes that are not 0, where malloc and realloc do not fail.
  pub drain_errors_lem :
      (w : World ⊥ ErrorArray)
      → IsFresh w
      → length w.errs < 2 ^ 25
      → all_set w.errs ≡ true
      → Drained (drain_errors room text w) (codes w.errs)
  unfolding drain_errors
  drain_errors_lem w fresh small set =
      let p = suc w.next in
      let start : World ⊥ ErrorArray = record w {
        next = p;
        cell = update w.cell p (some (struct (record { room_for = 8; infos = [] })));
      } in
      let filling : IsFilling start p 8 [] = record {
        held = ground arith;
        set = ground arith;
        old = omega arith;
        fresh = record {
          unused = λ x h. ground (arith, h, fresh.unused x);
          null_free = ground (arith, fresh.null_free);
        };
      } in
      let runs : drain_errors room text w ≡ drain_loop room text (suc (length w.errs)) p 8 0 start =
        ground (arith, grants (array_size 8)) in
      rw runs (
        loop_drains w.errs start p 8 0 [] refl filling refl (omega arith) (omega arith)
          (omega arith) (omega arith) set)
