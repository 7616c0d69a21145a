-- ===== src/Errors/Info.antt =====
-- One error of the queue, popped and described: src/component.c.
use openssl_wasm.Common.{ℕ, ◌%◌, ◌^◌, Bool, ◌==◌, if◌then◌else◌, Option, none, some, List, [], ◌∷◌}
use openssl_wasm.Memory.{ErrEntry, Cmd, Buffer, done, ◌>>=◌, pure, set_errs, string_take}

-- error-info
pub record ErrorInfo : Type 0 where
  pub code : ℕ
  pub library : Buffer
  pub reason : Buffer
  pub file : Option Buffer
  pub line : Option ℕ
  pub data_ : Option Buffer

-- ERR_lib_error_string and ERR_reason_error_string: NULL for a code that OpenSSL does not know.
pub record ErrText : Type 0 where
  pub lib_error_string : ℕ → Option (List ℕ)
  pub reason_error_string : ℕ → Option (List ℕ)

abbrev pub or_empty : Option (List ℕ) → List ℕ
or_empty none = []
or_empty (some s) = s

-- The `data` that is passed on, NULL unless ERR_TXT_STRING is set.
abbrev pub text_of : ErrEntry → Option (List ℕ)
text_of e = if e.text then e.extra else none

module _ {O R : Type 0} where
  -- ERR_get_error_all: the oldest entry, which is taken off the queue.
  abbrev pub get_error : Cmd O R (Option ErrEntry)
  get_error w = elim w.errs [ [] ↦ done none w | e ∷ q ↦ done (some e) (record w { errs = q }) ]

  module _ (room : ℕ → Bool) where
    -- A string that may be NULL.
    abbrev pub take_option : Option (List ℕ) → Cmd O R (Option Buffer)
    take_option none = pure none
    take_option (some s) = do b ← string_take room s; pure (some b)

    -- A string that may be NULL and is left out if it is empty.
    abbrev pub take_nonempty : Option (List ℕ) → Cmd O R (Option Buffer)
    take_nonempty none = pure none
    take_nonempty (some []) = pure none
    take_nonempty (some (c ∷ s)) = do b ← string_take room (c ∷ s); pure (some b)

    -- fill_error_info
    unfoldable pub fill_error_info :
        ErrText → ℕ → Option (List ℕ) → ℕ → Option (List ℕ) → Cmd O R ErrorInfo
    fill_error_info text c file_name line_number extra = do
      l ← string_take room (or_empty (text.lib_error_string c))
      r ← string_take room (or_empty (text.reason_error_string c))
      f ← take_option file_name
      d ← take_nonempty extra
      pure (record {
        code = c;
        library = l;
        reason = r;
        file = f;
        line = if line_number == 0 then none else some (line_number % 2 ^ 32);
        data_ = d;
      })

    -- fill_error_info with what ERR_get_error_all gave.
    unfoldable pub describe_entry : ErrText → ErrEntry → Cmd O R ErrorInfo
    unfolding fill_error_info
    describe_entry text e = fill_error_info text e.code e.file e.line (text_of e)

    -- exports_openssl_component_error_pop_error
    unfoldable pub pop_error : ErrText → Cmd O R (Option ErrorInfo)
    unfolding describe_entry
    pop_error text = do
      got ← get_error
      elim got [
        | none ↦ pure none
        | some e ↦ if e.code == 0 then pure none else do i ← describe_entry text e; pure (some i)
      ]

  -- exports_openssl_component_error_clear_errors
  unfoldable pub clear_errors : Cmd O R (Unit {0})
  clear_errors = set_errs []
