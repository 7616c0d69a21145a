-- ===== src/Tls/CString.antt =====
-- The NUL-terminated copies of strings that src/tls.c makes.
use mathlib.Core.Path.{fun_ext}
use mathlib.Core.List.{append-nil}
use openssl_wasm.Common.{
  ℕ, suc, ◌+◌, ◌≡◌, ap, ◌∙◌, refl, true, not, ◌&&◌, ◌≤◌, ◌==◌, if◌then◌else◌, Bool, Option, none,
  some, List, [], ◌∷◌, ◌++◌, length, take_past, drop_past, arith,
}
use openssl_wasm.Memory.{
  Cmd, Ptr, raw, World, done, ◌>>=◌, ◌>>◌, pure, xmalloc, write_at, update, at_least_one,
  string_take,
}

-- The bytes before the first NUL, which strlen counts. Nothing if there is no NUL.
abbrev pub c_string : List ℕ → Option (List ℕ)
c_string [] = none
c_string (c ∷ s) =
    if c == 0 then some [] else elim (c_string s) [ none ↦ none | some t ↦ some (c ∷ t) ]

abbrev pub no_nul : List ℕ → Bool
no_nul [] = true
no_nul (c ∷ s) = not (c == 0) && no_nul s

pub c_string-copy : (s : List ℕ) → no_nul s ≡ true → c_string (s ++ 0 ∷ []) ≡ some s
c_string-copy [] h = refl
c_string-copy (c ∷ s) h = ground (arith, h, c_string-copy s)

update_again :
    {A : Type 0} (f : Ptr → A) (p : Ptr) (a b : A) → update (update f p a) p b ≡ update f p b
update_again f p a b = fun_ext (λ x. ground arith)

module _ {O R : Type 0} (room : ℕ → Bool) where
  -- xmalloc(n + 1), a memcpy of the n bytes, and a 0 behind them.
  abbrev pub copy_c_string : List ℕ → Cmd O R Ptr
  copy_c_string s = do
    copy ← xmalloc room (length s + 1)
    write_at copy 0 s
    write_at copy (length s) (0 ∷ [])
    pure copy

  -- The memory after a copy.
  abbrev pub with_copy : List ℕ → World O R → World O R
  with_copy s w = record w {
    next = suc w.next;
    cell = update w.cell (suc w.next) (some (raw (length s + 1) (s ++ 0 ∷ [])));
  }

  pub copy_c_string_runs :
      (s : List ℕ) (w : World O R)
      → room (length s + 1) ≡ true
      → copy_c_string s w ≡ done (suc w.next) (with_copy s w)
  copy_c_string_runs s w grant =
      let p = suc w.next in
      let wrote : copy_c_string s w
          ≡ done p (record w {
            next = p;
            cell =
                update
                  (update (update w.cell p (some (raw (length s + 1) []))) p
                    (some (raw (length s + 1) s)))
                  p (some (raw (length s + 1) (s ++ 0 ∷ [])));
          }) =
        ground (
          arith,
          grant,
          append-nil s,
          take_past (length s) s,
          drop_past (length s) s,
          drop_past (length s + 1) s,
        ) in
      let same : update
            (update (update w.cell p (some (raw (length s + 1) []))) p
              (some (raw (length s + 1) s)))
            p (some (raw (length s + 1) (s ++ 0 ∷ [])))
          ≡ update w.cell p (some (raw (length s + 1) (s ++ 0 ∷ []))) =
        update_again _ p _ _ ∙ update_again w.cell p _ _ in
      wrote ∙ ap (λ c. done p (record w { next = p; cell = c })) same

  -- The memory after string_take.
  abbrev pub with_string : List ℕ → World O R → World O R
  with_string s w = record w {
    next = suc w.next;
    cell = update w.cell (suc w.next) (some (raw (at_least_one (length s)) s));
  }

  pub string_take_runs :
      (s : List ℕ) (w : World O R)
      → room (at_least_one (length s)) ≡ true
      → string_take room s w ≡ done (record { ptr = suc w.next; len = length s }) (with_string s w)
  string_take_runs s w grant =
      let p = suc w.next in
      let n = at_least_one (length s) in
      let fits : length s ≤ n = ground arith in
      let wrote : string_take room s w
          ≡ done (record { ptr = p; len = length s })
              (record w {
                next = p;
                cell = update (update w.cell p (some (raw n []))) p (some (raw n s));
              }) =
        ground (arith, grant, fits, append-nil s) in
      wrote
      ∙ ap (λ c. done (record { ptr = p; len = length s }) (record w { next = p; cell = c }))
          (update_again w.cell p (some (raw n [])) (some (raw n s)))
