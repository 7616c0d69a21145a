-- ===== src/Tls/Pipe/Pump.antt =====
-- One bio_read of src/tls.c after the other.
use mathlib.Core.List.{append_assoc}
use mathlib.Core.Path.{subst}
use openssl_wasm.Common.{
  ℕ, zero, suc, ◌+◌, ◌*◌, ◌^◌, ◌≤◌, ◌<◌, ltb, ◌==◌, ◌≡◌, ◌≢◌, ◌∙◌, ap, refl, Bool, true, false, inl,
  inr, Bool-cases, Option, none, some, List, [], ◌∷◌, ◌++◌, length, take, drop, drop_past, arith,
}
use openssl_wasm.Memory.{
  Ptr, Buffer, Cell, raw, struct, World, Run, done, object, and_then, ◌>>=◌, pure,
}
use openssl_wasm.Memory.Contract.{IsFresh}
use openssl_wasm.Tls.Structs.{TlsStruct}
use openssl_wasm.Tls.Openssl.{Openssl, TlsObject, TlsCmd, bio}
use openssl_wasm.Tls.Data.{take_bio}
use openssl_wasm.Tls.Pipe.Fifo.{IsMemBio, Holds, take_bio-Takes}

-- The bytes in `n` pieces of at most `max` bytes.
abbrev pub pieces : ℕ → ℕ → List ℕ → List (List ℕ)
pieces zero max bs = []
pieces (suc n) max bs = take max bs ∷ pieces n max (drop max bs)

abbrev pub concat : List (List ℕ) → List ℕ
concat [] = []
concat (l ∷ ls) = l ++ concat ls

-- What is left after `n` pieces.
abbrev pub after_pieces : ℕ → ℕ → List ℕ → List ℕ
after_pieces zero max bs = bs
after_pieces (suc n) max bs = after_pieces n max (drop max bs)

take-drop : (n : ℕ) (bs : List ℕ) → take n bs ++ drop n bs ≡ bs
take-drop n [] = refl
take-drop zero (b ∷ bs) = refl
take-drop (suc n) (b ∷ bs) = ap (λ z. b ∷ z) (take-drop n bs)

length-drop : (n : ℕ) (bs : List ℕ) → n ≤ length bs → n + length (drop n bs) ≡ length bs
length-drop n [] h = omega arith
length-drop zero (b ∷ bs) h = omega arith
length-drop (suc n) (b ∷ bs) h = omega (arith, length-drop n bs (omega arith))

drop_shorter : (n : ℕ) (bs : List ℕ) → length (drop n bs) ≤ length bs
drop_shorter n [] = omega arith
drop_shorter zero (b ∷ bs) = omega arith
drop_shorter (suc n) (b ∷ bs) = omega (arith, drop_shorter n bs)

-- The pieces and what is left are the bytes.
pub concat-pieces :
    (n max : ℕ) (bs : List ℕ) → concat (pieces n max bs) ++ after_pieces n max bs ≡ bs
concat-pieces zero max bs = refl
concat-pieces (suc n) max bs =
    append_assoc (take max bs) _ _
    ∙ ap (λ z. take max bs ++ z) (concat-pieces n max (drop max bs))
    ∙ take-drop max bs

after_pieces_nil : (n max : ℕ) → after_pieces n max [] ≡ []
after_pieces_nil zero max = refl
after_pieces_nil (suc n) max = after_pieces_nil n max

pub after_pieces_past : (n max : ℕ) (bs : List ℕ) → length bs ≤ n * max → after_pieces n max bs ≡ []
after_pieces_past n max [] h = after_pieces_nil n max
after_pieces_past zero max (b ∷ bs) h = absurd (omega arith)
after_pieces_past (suc n) max (b ∷ bs) h = elim (Bool-cases (ltb (length (b ∷ bs)) max)) [
  | inl less ↦
      ap (after_pieces n max) (drop_past max (b ∷ bs) (ground (arith, less)))
      ∙ after_pieces_nil n max
  | inr more ↦
      after_pieces_past n max (drop max (b ∷ bs))
        (ground (arith, more, h, length-drop max (b ∷ bs)))
]

was_none : {A : Type 0} (o d : Option A) → d ≡ none → ((a : A) → o ≡ some a → d ≢ none) → o ≡ none
was_none none d h f = refl
was_none (some a) d h f = absurd (f a refl h)

-- The address is not that of one of the buffers of pieces that have bytes.
abbrev pub IsElse : Ptr → List Buffer → List (List ℕ) → Type 0
IsElse p [] ls = Unit
IsElse p (b ∷ bs) [] = Unit
IsElse p (b ∷ bs) ([] ∷ ls) = IsElse p bs ls
IsElse p (b ∷ bs) ((x ∷ l) ∷ ls) = ((b.ptr == p) ≡ false) × IsElse p bs ls

module _ {lib : Openssl} where
  abbrev pub AllHold :
      (Ptr → Option (Cell (TlsObject lib) TlsStruct)) → List Buffer → List (List ℕ) → Type 0
  AllHold c [] [] = Unit
  AllHold c (b ∷ bs) (l ∷ ls) = Holds c b l × AllHold c bs ls
  AllHold c [] (l ∷ ls) = ⊥
  AllHold c (b ∷ bs) [] = ⊥

  Holds-frame :
      (c d : Ptr → Option (Cell (TlsObject lib) TlsStruct)) (b : Buffer) (l : List ℕ)
      → ((n : ℕ) (bs : List ℕ) → c b.ptr ≡ some (raw n bs) → d b.ptr ≡ some (raw n bs))
      → Holds c b l
      → Holds d b l
  Holds-frame c d b [] same h = h
  Holds-frame c d b (x ∷ l) same h = (h.0, same _ _ h.1)

  -- The buffers of the pieces that have bytes are new in a memory, and no two of them are the same.
  abbrev pub AllApart :
      (Ptr → Option (Cell (TlsObject lib) TlsStruct)) → List Buffer → List (List ℕ) → Type 0
  AllApart c [] ls = Unit
  AllApart c (b ∷ bs) [] = Unit
  AllApart c (b ∷ bs) ([] ∷ ls) = AllApart c bs ls
  AllApart c (b ∷ bs) ((x ∷ l) ∷ ls) = (c b.ptr ≡ none) × (IsElse b.ptr bs ls × AllApart c bs ls)

  held-IsElse :
      (c : Ptr → Option (Cell (TlsObject lib) TlsStruct)) (p : Ptr)
      (v : Cell (TlsObject lib) TlsStruct) (bs : List Buffer) (ls : List (List ℕ))
      → c p ≡ some v
      → AllApart c bs ls
      → IsElse p bs ls
  held-IsElse c p v [] ls h a = tt
  held-IsElse c p v (b ∷ bs) [] h a = tt
  held-IsElse c p v (b ∷ bs) ([] ∷ ls) h a = held-IsElse c p v bs ls h a
  held-IsElse c p v (b ∷ bs) ((x ∷ l) ∷ ls) h a =
      (ground (arith, h, a.0), held-IsElse c p v bs ls h a.1.1)

  older-AllApart :
      (c d : Ptr → Option (Cell (TlsObject lib) TlsStruct)) (bs : List Buffer) (ls : List (List ℕ))
      → ((x : Ptr) → d x ≡ none → c x ≡ none)
      → AllApart d bs ls
      → AllApart c bs ls
  older-AllApart c d [] ls older a = tt
  older-AllApart c d (b ∷ bs) [] older a = tt
  older-AllApart c d (b ∷ bs) ([] ∷ ls) older a = older-AllApart c d bs ls older a
  older-AllApart c d (b ∷ bs) ((x ∷ l) ∷ ls) older a =
      (older b.ptr a.0, (a.1.0, older-AllApart c d bs ls older a.1.1))

  cons-AllApart :
      (c d : Ptr → Option (Cell (TlsObject lib) TlsStruct)) (b : Buffer) (l : List ℕ)
      (bs : List Buffer) (ls : List (List ℕ))
      → c b.ptr ≡ none
      → Holds d b l
      → ((x : Ptr) → d x ≡ none → c x ≡ none)
      → AllApart d bs ls
      → AllApart c (b ∷ bs) (l ∷ ls)
  cons-AllApart c d b [] bs ls new h older a = older-AllApart c d bs ls older a
  cons-AllApart c d b (x ∷ l) bs ls new h older a =
      (new, (held-IsElse d b.ptr _ bs ls h.1 a, older-AllApart c d bs ls older a))

  -- Reads, one after the other.
  abbrev pub pump : ℕ → TlsCmd lib Buffer → TlsCmd lib (List Buffer)
  pump zero act = pure []
  pump (suc n) act = do b ← act; bs ← pump n act; pure (b ∷ bs)

  -- The buffers hold the pieces: a piece that has bytes is in a new buffer, which it shares with no
  -- other, and one without is NULL. The BIO at `o` has the bytes `rest`. What was in memory is there still.
  pub record Pumps (bytes_of : lib.Bio → List ℕ) (w : World (TlsObject lib) TlsStruct)
      (run : Run (TlsObject lib) TlsStruct (List Buffer)) (o : Ptr) (ls : List (List ℕ))
      (rest : List ℕ) : Type 0 where
    pub bufs : List Buffer
    pub after : World (TlsObject lib) TlsStruct
    pub left : lib.Bio
    pub runs : run ≡ done bufs after
    pub hold : AllHold after.cell bufs ls
    pub apart : AllApart w.cell bufs ls
    pub out_held : after.cell o ≡ some (object (bio left))
    pub rest_of : bytes_of left ≡ rest
    pub kept :
        (x : Ptr) (c : Cell (TlsObject lib) TlsStruct)
        → (x == o) ≡ false
        → w.cell x ≡ some c
        → after.cell x ≡ some c

  module _ (room : ℕ → Bool) (grants : (n : ℕ) → room n ≡ true) (bytes_of : lib.Bio → List ℕ)
      (mem_bio : IsMemBio lib bytes_of) where
    pub pump-Pumps :
        (n max : ℕ) (act : TlsCmd lib Buffer) (p : Ptr) (st : TlsStruct) (o : Ptr)
        → ((w : World (TlsObject lib) TlsStruct)
            → w.cell p ≡ some (struct st)
            → act w ≡ take_bio room o max w)
        → (w : World (TlsObject lib) TlsStruct) (b : lib.Bio) → IsFresh w
        → w.cell p ≡ some (struct st)
        → w.cell o ≡ some (object (bio b))
        → length (bytes_of b) < 2 ^ 31
        → Pumps bytes_of w
            (pump n act w)
            o
            (pieces n max (bytes_of b))
            (after_pieces n max (bytes_of b))
    pump-Pumps zero max act p st o is_take w b fresh at held small = record {
      bufs = [];
      after = w;
      left = b;
      runs = refl;
      hold = tt;
      apart = tt;
      out_held = held;
      rest_of = refl;
      kept = λ x c h1 h2. h2;
    }
    pump-Pumps (suc n) max act p st o is_take w b fresh at held small =
        let t = take_bio-Takes room grants bytes_of mem_bio w o b max fresh held small in
        let p_o : (p == o) ≡ false = ground (arith, at, held) in
        let stays : t.after.cell p ≡ some (struct st) =
          ground (arith, t.others p, p_o, at, t.new) in
        let stays_there : (x : Ptr) (c : Cell (TlsObject lib) TlsStruct)
            → w.cell x ≡ some c
            → t.after.cell x ≢ none =
          λ x c hc hn. ground (arith, hc, hn, t.others x, t.new, t.out_held) in
        let u : Pumps bytes_of t.after (pump n act t.after) o (pieces n max (drop max (bytes_of b)))
            (after_pieces n max (drop max (bytes_of b))) =
          subst
            (λ z.
              Pumps bytes_of t.after (pump n act t.after) o (pieces n max z) (after_pieces n max z))
            t.rest_of
            (pump-Pumps n max act p st o is_take t.after t.left t.fresh stays t.out_held
              (ground (arith, t.rest_of, drop_shorter max (bytes_of b), small))) in
        record {
          bufs = t.buf ∷ u.bufs;
          after = u.after;
          left = u.left;
          runs =
              ap (λ z. and_then z (λ x. pump n act >>= λ xs. pure (x ∷ xs))) (is_take w at ∙ t.runs)
              ∙ ap (λ z. and_then z (λ xs. pure (t.buf ∷ xs))) u.runs;
          hold = (
            Holds-frame t.after.cell u.after.cell t.buf (take max (bytes_of b))
                (λ k bs h. u.kept t.buf.ptr (raw k bs) (ground (arith, h, t.out_held)) h) t.holds,
            u.hold,
          );
          apart =
              cons-AllApart w.cell t.after.cell t.buf (take max (bytes_of b)) u.bufs
                (pieces n max (drop max (bytes_of b))) t.new t.holds
                (λ x h. was_none (w.cell x) (t.after.cell x) h (λ c hc. stays_there x c hc))
                u.apart;
          out_held = u.out_held;
          rest_of = u.rest_of;
          kept = λ x c h1 h2. u.kept x c h1 (ground (arith, t.others x h1, h2, t.new));
        }
