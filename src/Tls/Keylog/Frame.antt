-- ===== src/Tls/Keylog/Frame.antt =====
-- Changes of memory beside a key log buffer of src/tls.c, and free of it with what holds it.
use openssl_wasm.Common.{
  ℕ, ◌==◌, ◌≡◌, ◌∙◌, refl, false, if◌then◌else◌, Option, none, some, List, [], ◌∷◌, arith,
}
use openssl_wasm.Memory.{
  Queue, Cmd, Ptr, null, Cell, struct, World, Run, done, abort, fault, update, and_then, ◌>>=◌,
  ◌>>◌, store_struct, free,
}
use openssl_wasm.Memory.Contract.{Returns}
use openssl_wasm.Tls.Structs.{KeylogBuf, TlsStruct}
use openssl_wasm.Tls.Keylog.{keylog_buf_init, keylog_buf_clear}
use openssl_wasm.Tls.Keylog.Held.{Memory, mem, mem_apart, Texts-frame, AllNew, IsHolding}
use openssl_wasm.Tls.Keylog.Clear.{clear-Returns}

module _ {O : Type 0} where
  -- The memory without the cells at these addresses.
  abbrev pub without : List Ptr → Memory O → Memory O
  without ps m = λ x. if mem x ps then none else m x

  old_not_new :
      (m : Memory O) (x : Ptr) (c : Cell O TlsStruct) (ps : List Ptr)
      → m x ≡ some c
      → AllNew m ps
      → mem x ps ≡ false
  old_not_new m x c [] h new = refl
  old_not_new m x c (p ∷ ps) h new = ground (arith, h, new.0, old_not_new m x c ps h new.1)

  AllNew-update :
      (m : Memory O) (x : Ptr) (v : Option (Cell O TlsStruct)) (ps : List Ptr)
      → mem x ps ≡ false
      → AllNew m ps
      → AllNew (update m x v) ps
  AllNew-update m x v [] out new = tt
  AllNew-update m x v (p ∷ ps) out new =
      (ground (arith, out, new.0), AllNew-update m x v ps (ground (arith, out)) new.1)

  -- A cell that is not of the buffer is as in the rest of the memory.
  pub IsHolding-other :
      (m : Memory O) (w : World O TlsStruct) (b : KeylogBuf) (ps : List Ptr) (ls : List (List ℕ))
      (x : Ptr) (c : Cell O TlsStruct)
      → IsHolding m w b ps ls
      → m x ≡ some c
      → w.cell x ≡ some c
  IsHolding-other m w b ps ls x c h held =
      h.others x (ground (arith, held, h.array_new)) (old_not_new m x c ps held h.texts_new) ∙ held

  -- A change of such a cell leaves the buffer as it is.
  pub IsHolding-update :
      (m : Memory O) (w : World O TlsStruct) (b : KeylogBuf) (ps : List Ptr) (ls : List (List ℕ))
      (x : Ptr) (c : Cell O TlsStruct) (v : Option (Cell O TlsStruct))
      → IsHolding m w b ps ls
      → m x ≡ some c
      → IsHolding (update m x v) (record w { cell = update w.cell x v }) b ps ls
  IsHolding-update m w b ps ls x c v h held =
      let out : mem x ps ≡ false = old_not_new m x c ps held h.texts_new in
      let apart : (x == b.lines) ≡ false = ground (arith, held, h.array_new) in
      let used : w.cell x ≡ some c = IsHolding-other m w b ps ls x c h held in
      let set : (x == null) ≡ false = ground (arith, held, h.null_free) in
      record {
        fresh = record {
          unused = λ y hy. ground (arith, hy, h.fresh.unused y, used);
          null_free = ground (arith, h.fresh.null_free, set);
        };
        len = h.len;
        fits = h.fits;
        bounded = h.bounded;
        cap_set = h.cap_set;
        array = λ g. ground (arith, h.array g, apart);
        empty = h.empty;
        texts =
            Texts-frame w.cell _ ps ls (λ y hy. ground (arith, mem_apart y x ps hy out)) h.texts;
        apart = h.apart;
        array_new = ground (arith, h.array_new, apart);
        texts_new = AllNew-update m x v ps out h.texts_new;
        others = λ y h1 h2. ground (arith, h.others y h1 h2);
        null_free = ground (arith, h.null_free, set);
      }

  -- What a call leaves is a matter of the cells.
  pub Returns-same :
      {A : Type 0} (m d : Memory O) (run : Run O TlsStruct A) (v : A × Queue)
      → ((x : Ptr) → m x ≡ d x)
      → Returns m run v
      → Returns d run v
  Returns-same m d (done a w) v same y = (y.0, λ x. y.1 x ∙ same x, y.2)
  Returns-same m d abort v same y = y
  Returns-same m d fault v same y = y

  -- The end of a destructor: the buffer inside the struct at `p` is cleared, and the struct is freed.
  abbrev pub drop_struct : Ptr → KeylogBuf → (KeylogBuf → TlsStruct) → Cmd O TlsStruct (Unit {0})
  drop_struct p b to_struct = do b' ← keylog_buf_clear b; store_struct p (to_struct b'); free p

  after_clear :
      (m : Memory O) (p : Ptr) (old : TlsStruct) (to_struct : KeylogBuf → TlsStruct) (q : Queue)
      (run : Run O TlsStruct KeylogBuf)
      → m p ≡ some (struct old)
      → (p == null) ≡ false
      → Returns m run (keylog_buf_init, q)
      → Returns
          (update m p none)
          (and_then run (λ b'. do store_struct p (to_struct b'); free p))
          (tt, q)
  after_clear m p old to_struct q (done b w) held set y =
      let drop : Cmd O TlsStruct (Unit {0}) = (do store_struct p (to_struct b); free p) in
      let runs : drop w
          ≡ done tt
              (record w { cell = update (update w.cell p (some (struct (to_struct b)))) p none }) =
        ground (arith, y.1 p, held, set) in
      rw runs (refl, λ x. ground (arith, y.1 x), y.2)
  after_clear m p old to_struct q abort held set y = y
  after_clear m p old to_struct q fault held set y = y

  pub drop_struct-Returns :
      (m : Memory O) (w : World O TlsStruct) (p : Ptr) (old : TlsStruct) (b : KeylogBuf)
      (to_struct : KeylogBuf → TlsStruct) (ps : List Ptr) (ls : List (List ℕ))
      → IsHolding m w b ps ls
      → m p ≡ some (struct old)
      → Returns (update m p none) (drop_struct p b to_struct w) (tt, w.errs)
  drop_struct-Returns m w p old b to_struct ps ls h held =
      after_clear m p old to_struct w.errs (keylog_buf_clear b w) held
        (ground (arith, held, h.null_free)) (clear-Returns m w b ps ls h)
