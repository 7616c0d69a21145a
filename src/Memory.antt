-- ===== src/Memory.antt =====
-- The memory that the C code works on: allocated cells at addresses, OpenSSL's error queue, and
-- commands that may abort or fault. libc, OpenSSL and the generated bindings are not modelled by
-- their text: `room` says which sizes malloc grants, `O` are the values behind OpenSSL's object
-- pointers, and `R` the structs that the code itself allocates. A resource handle of the bindings
-- is the address of the struct that it stands for.
pub mod Contract
pub mod Laws
use openssl_wasm.Common.{
  ℕ, suc, ◌+◌, Bool, ◌==◌, leb, if◌then◌else◌, Option, none, some, List, [], ◌∷◌, ◌++◌, length,
  take, drop,
}

-- One entry of OpenSSL's error queue. `text` says that ERR_TXT_STRING is among its flags.
pub record ErrEntry : Type 0 where
  pub code : ℕ
  pub file : Option (List ℕ)
  pub line : ℕ
  pub extra : Option (List ℕ)
  pub text : Bool

-- Oldest entry first.
abbrev pub Queue : Type 0
Queue = List ErrEntry

-- ERR_peek_last_error: the code of the newest entry, 0 if there is none.
abbrev pub peek_last : Queue → ℕ
peek_last [] = 0
peek_last (e ∷ []) = e.code
peek_last (e ∷ f ∷ q) = peek_last (f ∷ q)

abbrev pub Ptr : Type 0
Ptr = ℕ

abbrev pub null : Ptr
null = 0

-- What an address holds: a byte buffer of some size with the bytes written so far, a struct of the
-- code, or an object of OpenSSL.
pub data Cell (O R : Type 0) : Type 0 where
  raw : ℕ → List ℕ → Cell O R
  struct : R → Cell O R
  object : O → Cell O R

-- Addresses above `next` have never been used.
pub record World (O R : Type 0) : Type 0 where
  pub next : ℕ
  pub cell : Ptr → Option (Cell O R)
  pub errs : Queue

-- `abort` is the call of abort() when memory runs out; `fault` is undefined behaviour: a read or
-- write through a pointer to nothing, past the end of a buffer, or a second free.
pub data Run (O R A : Type 0) : Type 0 where
  done : A → World O R → Run O R A
  abort : Run O R A
  fault : Run O R A

pub data Result (E A : Type 0) : Type 0 where
  ok : A → Result E A
  err : E → Result E A

-- The `ptr` and `len` of a list<u8> or string that is returned.
pub record Buffer : Type 0 where
  pub ptr : Ptr
  pub len : ℕ

-- The size asked of malloc for `n` bytes: n ? n : 1.
abbrev pub at_least_one : ℕ → ℕ
at_least_one n = if n == 0 then 1 else n

abbrev pub update {ℓ} : {A : Type ℓ} → (Ptr → A) → Ptr → A → Ptr → A
update f p a x = if x == p then a else f x

abbrev pub Cmd : Type 0 → Type 0 → Type 0 → Type 0
Cmd O R A = World O R → Run O R A

module _ {O R : Type 0} where
  abbrev pub pure : {A : Type 0} → A → Cmd O R A
  pure = done

  abbrev pub and_then : {A B : Type 0} → Run O R A → (A → Cmd O R B) → Run O R B
  and_then (done a w) k = k a w
  and_then abort k = abort
  and_then fault k = fault

  infixl 5 ◌>>=◌ ◌>>◌
  abbrev pub ◌>>=◌ : {A B : Type 0} → Cmd O R A → (A → Cmd O R B) → Cmd O R B
  m >>= k = λ w. and_then (m w) k

  abbrev pub ◌>>◌ : {A B : Type 0} → Cmd O R A → Cmd O R B → Cmd O R B
  m >> n = m >>= λ _. n

  abbrev pub set_cell : Ptr → Option (Cell O R) → Cmd O R (Unit {0})
  set_cell p c w = done tt (record w { cell = update w.cell p c })

  -- A new cell at an address that was never used.
  abbrev pub allocate : Cell O R → Cmd O R Ptr
  allocate c w =
      done (suc w.next) (record w { next = suc w.next; cell = update w.cell (suc w.next) (some c) })

  -- xmalloc of src/include/support.h: malloc, and abort if it fails for a size that is not 0.
  abbrev pub xmalloc : (ℕ → Bool) → ℕ → Cmd O R Ptr
  xmalloc room n = if room n then allocate (raw n []) else if n == 0 then pure null else λ _. abort

  -- xmalloc of a struct, whose fields are stored at once; `size` is its sizeof.
  abbrev pub xmalloc_struct : (ℕ → Bool) → ℕ → R → Cmd O R Ptr
  xmalloc_struct room size r =
      if room size then allocate (struct r) else if size == 0 then pure null else λ _. abort

  -- free
  abbrev pub free : Ptr → Cmd O R (Unit {0})
  free p w = if p == null then done tt w else elim (w.cell p) [
    | none ↦ fault
    | some (object o) ↦ fault
    | some (raw n bs) ↦ set_cell p none w
    | some (struct r) ↦ set_cell p none w
  ]

  -- A constructor of OpenSSL: NULL if it gives no object.
  abbrev pub new_object : Option O → Cmd O R Ptr
  new_object none = pure null
  new_object (some o) = allocate (object o)

  -- A destructor of OpenSSL, which accepts NULL.
  abbrev pub free_object : Ptr → Cmd O R (Unit {0})
  free_object p w = if p == null then done tt w else elim (w.cell p) [
    | none ↦ fault
    | some (object o) ↦ set_cell p none w
    | some (raw n bs) ↦ fault
    | some (struct r) ↦ fault
  ]

  -- The object that OpenSSL finds at a pointer.
  abbrev pub load : Ptr → Cmd O R O
  load p w = elim (w.cell p) [
    | none ↦ fault
    | some (object o) ↦ done o w
    | some (raw n bs) ↦ fault
    | some (struct r) ↦ fault
  ]

  abbrev pub store : Ptr → O → Cmd O R (Unit {0})
  store p o = set_cell p (some (object o))

  -- The struct at a pointer.
  abbrev pub load_struct : Ptr → Cmd O R R
  load_struct p w = elim (w.cell p) [
    | none ↦ fault
    | some (struct r) ↦ done r w
    | some (raw n bs) ↦ fault
    | some (object o) ↦ fault
  ]

  -- An assignment to the fields of a struct.
  abbrev pub store_struct : Ptr → R → Cmd O R (Unit {0})
  store_struct p r w = elim (w.cell p) [
    | none ↦ fault
    | some (struct old) ↦ set_cell p (some (struct r)) w
    | some (raw n bs) ↦ fault
    | some (object o) ↦ fault
  ]

  -- Bytes written into a buffer from an offset on; past its end is a fault.
  abbrev pub write_at : Ptr → ℕ → List ℕ → Cmd O R (Unit {0})
  write_at p at bs w = elim (w.cell p) [
    | none ↦ fault
    | some (struct r) ↦ fault
    | some (object o) ↦ fault
    | some (raw n old) ↦
        if leb (at + length bs) n
        then set_cell p (some (raw n (take at old ++ (bs ++ drop (at + length bs) old)))) w
        else fault
  ]

  -- The bytes that a call of OpenSSL reads through a pointer.
  abbrev pub read_bytes : Ptr → Cmd O R (List ℕ)
  read_bytes p w = elim (w.cell p) [
    | none ↦ fault
    | some (struct r) ↦ fault
    | some (object o) ↦ fault
    | some (raw n bs) ↦ done bs w
  ]

  -- string_take of src/include/support.h: a copy of the bytes.
  abbrev pub string_take : (ℕ → Bool) → List ℕ → Cmd O R Buffer
  string_take room bs = do
    p ← xmalloc room (at_least_one (length bs))
    write_at p 0 bs
    pure (record { ptr = p; len = length bs })

  -- The error queue after a call of OpenSSL.
  abbrev pub set_errs : Queue → Cmd O R (Unit {0})
  set_errs q w = done tt (record w { errs = q })

  -- A call of OpenSSL that reads the error queue and leaves another.
  abbrev pub call : {A : Type 0} → (Queue → A × Queue) → Cmd O R A
  call f w = let (a, q) = f w.errs in done a (record w { errs = q })

  -- ERR_peek_last_error
  abbrev pub peek_last_error : Cmd O R ℕ
  peek_last_error w = done (peek_last w.errs) w

  -- A call of OpenSSL on the object at a pointer, which may change the object.
  abbrev pub call_on : {A : Type 0} → Ptr → (O → Queue → (A × O) × Queue) → Cmd O R A
  call_on p f = do o ← load p; (a, o') ← call (f o); store p o'; pure a
