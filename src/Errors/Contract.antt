-- ===== src/Errors/Contract.antt =====
-- What drain_errors of src/component.c leaves.
use mathlib.Core.List.{append-nil}
use openssl_wasm.Common.{
  ℕ, suc, ◌%◌, ◌^◌, ◌≤◌, ◌≡◌, refl, Bool, true, ◌==◌, if◌then◌else◌, Option, none, some, List, [],
  ◌∷◌, length, arith,
}
use openssl_wasm.Memory.{ErrEntry, Cmd, Ptr, World, done, string_take, raw, update, at_least_one}
use openssl_wasm.Memory.Contract.{IsFresh}
use openssl_wasm.Errors.Info.{
  ErrText, or_empty, text_of, take_option, take_nonempty, fill_error_info, describe_entry,
}

module _ {O R : Type 0} where
  -- The call returns a value that has the property, and only adds cells to the memory.
  pub record Adds {A : Type 0} (m : Cmd O R A) (w : World O R) (P : A → Type 0) : Type 0 where
    pub result : A
    pub after : World O R
    pub runs : m w ≡ done result after
    pub errs_kept : after.errs ≡ w.errs
    pub grows : w.next ≤ after.next
    pub fresh : IsFresh after
    pub kept : (x : Ptr) → x ≤ w.next → after.cell x ≡ w.cell x
    pub holds : P result

  module _ (room : ℕ → Bool) (grants : (n : ℕ) → room n ≡ true) where
    string_take-Adds :
        (bs : List ℕ) (w : World O R)
        → IsFresh w
        → Adds (string_take room bs) w (λ b. b.len ≡ length bs)
    string_take-Adds bs w fresh =
        let p = suc w.next in
        record {
          result = record { ptr = p; len = length bs };
          after = record {
            next = p;
            cell =
                update (update w.cell p (some (raw (at_least_one (length bs)) []))) p
                  (some (raw (at_least_one (length bs)) bs));
            errs = w.errs;
          };
          runs = ground (arith, grants (at_least_one (length bs)), append-nil bs);
          errs_kept = refl;
          grows = omega arith;
          fresh = record {
            unused = λ x h. ground (arith, h, fresh.unused x);
            null_free = ground (arith, fresh.null_free);
          };
          kept = λ x h. ground (arith, h);
          holds = refl;
        }

    take_option-Adds :
        (s : Option (List ℕ)) (w : World O R) → IsFresh w → Adds (take_option room s) w (λ b. Unit)
    take_option-Adds none w fresh = record {
      result = none;
      after = w;
      runs = refl;
      errs_kept = refl;
      grows = omega arith;
      fresh = fresh;
      kept = λ x h. refl;
      holds = tt;
    }
    take_option-Adds (some s) w fresh =
        let t = string_take-Adds s w fresh in
        record {
          result = some t.result;
          after = t.after;
          runs = ground (arith, t.runs);
          errs_kept = t.errs_kept;
          grows = t.grows;
          fresh = t.fresh;
          kept = t.kept;
          holds = tt;
        }

    take_nonempty-Adds :
        (s : Option (List ℕ)) (w : World O R)
        → IsFresh w
        → Adds (take_nonempty room s) w (λ b. Unit)
    take_nonempty-Adds none w fresh = record {
      result = none;
      after = w;
      runs = refl;
      errs_kept = refl;
      grows = omega arith;
      fresh = fresh;
      kept = λ x h. refl;
      holds = tt;
    }
    take_nonempty-Adds (some []) w fresh = record {
      result = none;
      after = w;
      runs = refl;
      errs_kept = refl;
      grows = omega arith;
      fresh = fresh;
      kept = λ x h. refl;
      holds = tt;
    }
    take_nonempty-Adds (some (c ∷ s)) w fresh =
        let t = string_take-Adds (c ∷ s) w fresh in
        record {
          result = some t.result;
          after = t.after;
          runs = ground (arith, t.runs);
          errs_kept = t.errs_kept;
          grows = t.grows;
          fresh = t.fresh;
          kept = t.kept;
          holds = tt;
        }

    pub describe_entry-Adds :
        (text : ErrText) (e : ErrEntry) (w : World O R)
        → IsFresh w
        → Adds (describe_entry room text e) w (λ i. i.code ≡ e.code)
    unfolding describe_entry fill_error_info
    describe_entry-Adds text e w fresh =
        let l = string_take-Adds (or_empty (text.lib_error_string e.code)) w fresh in
        let r = string_take-Adds (or_empty (text.reason_error_string e.code)) l.after l.fresh in
        let f = take_option-Adds e.file r.after r.fresh in
        let d = take_nonempty-Adds (text_of e) f.after f.fresh in
        record {
          result = record {
            code = e.code;
            library = l.result;
            reason = r.result;
            file = f.result;
            line = if e.line == 0 then none else some (e.line % 2 ^ 32);
            data_ = d.result;
          };
          after = d.after;
          runs = rw (l.runs, r.runs, f.runs, d.runs) refl;
          errs_kept = ground (arith, l.errs_kept, r.errs_kept, f.errs_kept, d.errs_kept);
          grows = omega (arith, l.grows, r.grows, f.grows, d.grows);
          fresh = d.fresh;
          kept = λ x h.
              ground
                (arith, h, l.grows, r.grows, f.grows, l.kept x h, r.kept x, f.kept x, d.kept x);
          holds = refl;
        }
