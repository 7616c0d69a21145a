-- ===== src/Memory/Contract.antt =====
-- What a call owes to its caller: the bytes that it returns, and a memory that is otherwise as it
-- was, so that nothing leaks.
use openssl_wasm.Common.{ℕ, ◌<◌, ◌≡◌, false, ◌==◌, Option, none, some, List, [], length}
use openssl_wasm.Memory.{
  Queue, Ptr, null, Cell, raw, struct, object, World, Run, done, abort, fault, Result, ok, err,
  Buffer,
}

module _ {O R : Type 0} where
  -- The bytes of a buffer.
  abbrev pub contents : Option (Cell O R) → Option (List ℕ)
  contents none = none
  contents (some (raw n bs)) = some bs
  contents (some (struct r)) = none
  contents (some (object o)) = none

  -- No cell lies at NULL or above `next`.
  pub record IsFresh (w : World O R) : Type 0 where
    pub unused : (x : Ptr) → w.next < x → w.cell x ≡ none
    pub null_free : w.cell null ≡ none

  -- The call returns as the value says, and leaves the memory `m`; a success adds one new cell to
  -- it, a buffer with the bytes of the value.
  abbrev pub Yields :
      {E : Type 0}
      → (Ptr → Option (Cell O R))
      → Run O R (Result E Buffer)
      → Result E (List ℕ) × Queue
      → Type 0
  Yields m (done (ok b) w) (ok bs, q) =
      (contents (w.cell b.ptr) ≡ some bs)
      × (b.len ≡ length bs)
      × (m b.ptr ≡ none)
      × ((x : Ptr) → (x == b.ptr) ≡ false → w.cell x ≡ m x)
      × (w.errs ≡ q)
  Yields m (done (err e) w) (err e', q) = (e ≡ e') × ((x : Ptr) → w.cell x ≡ m x) × (w.errs ≡ q)
  Yields m (done (ok b) w) (err e, q) = ⊥
  Yields m (done (err e) w) (ok bs, q) = ⊥
  Yields m abort v = ⊥
  Yields m fault v = ⊥

  -- The call returns the value and the queue, and leaves the memory `m`.
  abbrev pub Returns : {A : Type 0} → (Ptr → Option (Cell O R)) → Run O R A → A × Queue → Type 0
  Returns m (done a w) (a', q) = (a ≡ a') × ((x : Ptr) → w.cell x ≡ m x) × (w.errs ≡ q)
  Returns m abort v = ⊥
  Returns m fault v = ⊥

-- The bytes of a call's output, none if it failed.
abbrev pub output : Option (List ℕ) → List ℕ
output none = []
output (some bs) = bs
