-- ===== src/Tls/Keylog/Drained.antt =====
-- The state of keylog_buf_drain_to of src/tls.c: the strings copied and the lines to go.

use openssl_wasm.Common.{
  ℕ, ◌+◌, ◌≤◌, ◌≡◌, refl, ap, ◌∙◌, Bool, true, false, ◌&&◌, ◌==◌, none, some, List, [], ◌∷◌, ◌++◌,
  length, get_elem?, arith,
}
use openssl_wasm.Memory.{Queue, Ptr, null, Buffer, raw, struct, World, Run, done, at_least_one}
use openssl_wasm.Memory.Contract.{IsFresh}
use openssl_wasm.Tls.CString.{no_nul}
use openssl_wasm.Tls.Structs.{KeylogBuf, TlsStruct, pointers, strings}
use openssl_wasm.Tls.Keylog.{keylog_buf_init}
use openssl_wasm.Tls.Keylog.Held.{Memory, mem, Texts, AllNew}

abbrev pub all_no_nul : List (List ℕ) → Bool
all_no_nul [] = true
all_no_nul (l ∷ ls) = no_nul l && all_no_nul ls

abbrev pub ptrs : List Buffer → List Ptr
ptrs [] = []
ptrs (b ∷ bs) = b.ptr ∷ ptrs bs

pub ptrs-snoc : (bs : List Buffer) (b : Buffer) → ptrs (bs ++ b ∷ []) ≡ ptrs bs ++ b.ptr ∷ []
ptrs-snoc [] b = refl
ptrs-snoc (a ∷ bs) b = ap (λ ps. a.ptr ∷ ps) (ptrs-snoc bs b)

pub get_elem?-append :
    (ps : List Ptr) (q : Ptr) (qs : List Ptr) → get_elem? (ps ++ q ∷ qs) (length ps) ≡ some q
get_elem?-append [] q qs = refl
get_elem?-append (p ∷ ps) q qs = get_elem?-append ps q qs

module _ {O : Type 0} where
  -- The strings lie in memory, one for each line.
  abbrev pub StringsAt : Memory O → List Buffer → List (List ℕ) → Type 0
  StringsAt c [] [] = Unit
  StringsAt c (b ∷ bs) (l ∷ ls) =
      (c b.ptr ≡ some (raw (at_least_one (length l)) l)) × (b.len ≡ length l) × StringsAt c bs ls
  StringsAt c [] (l ∷ ls) = ⊥
  StringsAt c (b ∷ bs) [] = ⊥

  pub StringsAt-frame :
      (c d : Memory O) (bs : List Buffer) (ls : List (List ℕ))
      → ((x : Ptr) → mem x (ptrs bs) ≡ true → d x ≡ c x)
      → StringsAt c bs ls
      → StringsAt d bs ls
  StringsAt-frame c d [] [] same t = tt
  StringsAt-frame c d (b ∷ bs) (l ∷ ls) same t = (
    same b.ptr (ground arith) ∙ t.0,
    t.1,
    StringsAt-frame c d bs ls (λ x h. same x (ground (arith, h))) t.2,
  )
  StringsAt-frame c d [] (l ∷ ls) same t = t
  StringsAt-frame c d (b ∷ bs) [] same t = t

  pub StringsAt-snoc :
      (c : Memory O) (bs : List Buffer) (ls : List (List ℕ)) (b : Buffer) (l : List ℕ)
      → StringsAt c bs ls
      → c b.ptr ≡ some (raw (at_least_one (length l)) l)
      → b.len ≡ length l
      → StringsAt c (bs ++ b ∷ []) (ls ++ l ∷ [])
  StringsAt-snoc c [] [] b l t h n = (h, n, tt)
  StringsAt-snoc c (a ∷ bs) (k ∷ ls) b l t h n = (t.0, t.1, StringsAt-snoc c bs ls b l t.2 h n)
  StringsAt-snoc c [] (k ∷ ls) b l t h n = absurd t
  StringsAt-snoc c (a ∷ bs) [] b l t h n = absurd t

  pub strings_unused :
      (c : Memory O) (x : Ptr) (bs : List Buffer) (ls : List (List ℕ))
      → c x ≡ none
      → StringsAt c bs ls
      → mem x (ptrs bs) ≡ false
  strings_unused c x [] ls h t = refl
  strings_unused c x (b ∷ bs) (l ∷ ls) h t = ground (arith, h, t.0, strings_unused c x bs ls h t.2)
  strings_unused c x (b ∷ bs) [] h t = absurd t

  -- The call returns an array of the lines as strings, and an empty buffer; but for the array and
  -- the strings, which are new, the memory is `m`.
  pub record Drained (m : Memory O) (run : Run O TlsStruct ((Ptr × ℕ) × KeylogBuf))
      (ls : List (List ℕ)) (errs : Queue) : Type 0 where
    pub out : Ptr
    pub room_for : ℕ
    pub bufs : List Buffer
    pub after : World O TlsStruct
    pub runs : run ≡ done ((out, length ls), keylog_buf_init) after
    pub array : after.cell out ≡ some (struct (strings room_for bufs))
    pub texts : StringsAt after.cell bufs ls
    pub out_new : m out ≡ none
    pub texts_new : AllNew m (ptrs bufs)
    pub others : (x : Ptr) → (x == out) ≡ false → mem x (ptrs bufs) ≡ false → after.cell x ≡ m x
    pub errs_kept : after.errs ≡ errs

  -- The loop of keylog_buf_drain_to has copied the lines `ls1`, and has `ls2` at `qs` to go.
  pub record IsDraining (m : Memory O) (w : World O TlsStruct) (p out cap k : ℕ) (ps ps1 : List Ptr)
      (bufs : List Buffer) (ls1 : List (List ℕ)) (qs : List Ptr) (ls2 : List (List ℕ))
      : Type 0 where
    pub fresh : IsFresh w
    pub out_held : w.cell out ≡ some (struct (strings k bufs))
    pub array : (p == null) ≡ false → w.cell p ≡ some (struct (pointers cap ps))
    pub bare : (p == null) ≡ true → qs ≡ []
    pub split : ps ≡ ps1 ++ qs
    pub count : length ps1 ≡ length bufs
    pub fits : length bufs + length qs ≤ k
    pub texts : Texts w.cell qs ls2
    pub strs : StringsAt w.cell bufs ls1
    pub out_set : (out == null) ≡ false
    pub p_out : (p == out) ≡ false
    pub p_qs : mem p qs ≡ false
    pub out_qs : mem out qs ≡ false
    pub p_bufs : mem p (ptrs bufs) ≡ false
    pub out_bufs : mem out (ptrs bufs) ≡ false
    pub apart : (x : Ptr) → mem x qs ≡ true → mem x (ptrs bufs) ≡ false
    pub p_new : m p ≡ none
    pub out_new : m out ≡ none
    pub qs_new : AllNew m qs
    pub bufs_new : AllNew m (ptrs bufs)
    pub others :
        (x : Ptr)
        → (x == p) ≡ false
        → (x == out) ≡ false
        → mem x qs ≡ false
        → mem x (ptrs bufs) ≡ false
        → w.cell x ≡ m x
