-- ===== src/Codec/Text/RoundTrip.antt =====
-- `parse` reads back the text that `append` wrote, in both directions.
use mathlib.Core.List.{append_assoc, append-nil}
use miniob4cqu_db_exp.Common.{
  ℕ, ◌≡◌, refl, ap, ◌∙◌, inl, inr, true, false, some, List, [], ◌∷◌, ◌++◌, bit_xor, arith, ◌==◌,
  ==_iff, if◌then◌else◌, All, Bool-cases,
}
use miniob4cqu_db_exp.Codec.Bytes.{IsByte, invert, IsDirection, towards, xor_twice, xor-zero}
use miniob4cqu_db_exp.Codec.Text.{term, lit00, litff, copy, append, finish, scan, parse}

-- What one byte is written as.
abbrev pub escaped : ℕ → List ℕ
escaped c = if c == 0x00 then lit00 else if c == 0xff then litff else c ∷ []

abbrev pub escape : List ℕ → List ℕ
escape [] = []
escape (c ∷ x) = escaped c ++ escape x

copy-nul :
    (s run : List ℕ) (c : ℕ) (x : List ℕ)
    → (c == 0x00) ≡ true
    → copy s run (c ∷ x) ≡ copy (s ++ (run ++ lit00)) [] x
unfolding copy
copy-nul s run c x h = ground arith

copy-full :
    (s run : List ℕ) (c : ℕ) (x : List ℕ)
    → (c == 0x00) ≡ false
    → (c == 0xff) ≡ true
    → copy s run (c ∷ x) ≡ copy (s ++ (run ++ litff)) [] x
unfolding copy
copy-full s run c x h k = ground arith

copy-plain :
    (s run : List ℕ) (c : ℕ) (x : List ℕ)
    → (c == 0x00) ≡ false
    → (c == 0xff) ≡ false
    → copy s run (c ∷ x) ≡ copy s (run ++ c ∷ []) x
unfolding copy
copy-plain s run c x h k = ground arith

copy-escape : (s run x : List ℕ) → copy s run x ≡ s ++ (run ++ escape x)
copy-escape s run [] = unfold copy in rw (append-nil run) refl
copy-escape s run (c ∷ x) = elim (Bool-cases (c == 0x00)) [
  | inl nul ↦
      copy-nul s run c x nul
      ∙ copy-escape (s ++ (run ++ lit00)) [] x
      ∙ rw (nul, append_assoc s, append_assoc run) refl
  | inr other ↦ elim (Bool-cases (c == 0xff)) [
    | inl full ↦
        copy-full s run c x other full
        ∙ copy-escape (s ++ (run ++ litff)) [] x
        ∙ rw (other, full, append_assoc s, append_assoc run) refl
    | inr plain ↦
        copy-plain s run c x other plain
        ∙ copy-escape s (run ++ c ∷ []) x
        ∙ rw (other, plain, append_assoc run) refl
  ]
]

pub append-escape : (s x : List ℕ) → append s x ≡ s ++ (escape x ++ term)
unfolding append
append-escape s x = rw (copy-escape s [] x) (append_assoc s (escape x) term)

scan-plain :
    (dir : ℕ) (buf run : List ℕ) (b : ℕ) (t : List ℕ)
    → (bit_xor b dir == 0x00) ≡ false
    → (bit_xor b dir == 0xff) ≡ false
    → scan dir buf run (b ∷ t) ≡ scan dir buf (run ++ b ∷ []) t
unfolding scan
scan-plain dir buf run b [] h k = rw (h, k) refl
scan-plain dir buf run b (n ∷ t) h k = ground arith

scan-term :
    (dir : ℕ) (buf run : List ℕ) (b n : ℕ) (s : List ℕ)
    → bit_xor b dir ≡ 0x00
    → bit_xor n dir ≡ 0x01
    → scan dir buf run (b ∷ n ∷ s) ≡ some (finish dir (buf ++ run), s)
unfolding scan
scan-term dir buf run b n s h k = ground arith

scan-nul :
    (dir : ℕ) (buf run : List ℕ) (b n : ℕ) (s : List ℕ)
    → bit_xor b dir ≡ 0x00
    → bit_xor n dir ≡ 0xff
    → scan dir buf run (b ∷ n ∷ s) ≡ scan dir (buf ++ (run ++ bit_xor 0x00 dir ∷ [])) [] s
unfolding scan
scan-nul dir buf run b n s h k = ground arith

scan-full :
    (dir : ℕ) (buf run : List ℕ) (b n : ℕ) (s : List ℕ)
    → bit_xor b dir ≡ 0xff
    → bit_xor n dir ≡ 0x00
    → scan dir buf run (b ∷ n ∷ s) ≡ scan dir (buf ++ (run ++ bit_xor 0xff dir ∷ [])) [] s
unfolding scan
scan-full dir buf run b n s h k = ground arith

scan-escape :
    (dir : ℕ) (buf run x rest : List ℕ)
    → IsDirection dir
    → All IsByte x
    → scan dir buf run (towards dir (escape x ++ term) ++ rest)
      ≡ some (finish dir (buf ++ (run ++ towards dir x)), rest)
scan-escape dir buf run [] rest d v = rw (append-nil run) (
    scan-term dir buf run _ _ rest (xor_twice dir 0 d (omega arith))
      (xor_twice dir 1 d (omega arith)))
scan-escape dir buf run (c ∷ x) rest d v = elim (Bool-cases (c == 0x00)) [
  | inl nul ↦
      rw (nul, (==_iff c 0).0 nul)
        (scan-nul dir buf run _ _ _ (xor_twice dir 0 d (omega arith))
            (xor_twice dir 255 d (omega arith))
          ∙ scan-escape dir (buf ++ (run ++ bit_xor 0x00 dir ∷ [])) [] x rest d v.1
          ∙ rw (append_assoc buf, append_assoc run) refl)
  | inr other ↦ elim (Bool-cases (c == 0xff)) [
    | inl full ↦
        rw (other, full, (==_iff c 255).0 full)
          (scan-full dir buf run _ _ _ (xor_twice dir 255 d (omega arith))
              (xor_twice dir 0 d (omega arith))
            ∙ scan-escape dir (buf ++ (run ++ bit_xor 0xff dir ∷ [])) [] x rest d v.1
            ∙ rw (append_assoc buf, append_assoc run) refl)
    | inr plain ↦
        let twice : bit_xor (bit_xor c dir) dir ≡ c = xor_twice dir c d v.0 in
        rw (other, plain)
          (scan-plain dir buf run (bit_xor c dir) (towards dir (escape x ++ term) ++ rest)
              (rw twice other) (rw twice plain)
            ∙ scan-escape dir buf (run ++ bit_xor c dir ∷ []) x rest d v.1
            ∙ rw append_assoc refl)
  ]
]

towards_twice :
    (dir : ℕ) (x : List ℕ) → IsDirection dir → All IsByte x → towards dir (towards dir x) ≡ x
towards_twice dir [] d v = refl
towards_twice dir (c ∷ x) d v = λ i. xor_twice dir c d v.0 i ∷ towards_twice dir x d v.1 i

towards-increasing : (x : List ℕ) → All IsByte x → towards 0 x ≡ x
towards-increasing [] v = refl
towards-increasing (c ∷ x) v = λ i. xor-zero c v.0 i ∷ towards-increasing x v.1 i

finish-towards :
    (dir : ℕ) (x : List ℕ) → IsDirection dir → All IsByte x → finish dir (towards dir x) ≡ x
unfolding finish invert
finish-towards dir x (inl up) v = rw up (towards-increasing x v)
finish-towards dir x (inr down) v = rw down (towards_twice 255 x (inr refl) v)

-- A text of any bytes that is encoded, in either direction, and followed by any bytes is parsed to
-- the text and these bytes.
pub parse-append_text :
    (dir : ℕ) (x rest : List ℕ)
    → IsDirection dir
    → All IsByte x
    → parse (towards dir (append [] x) ++ rest) dir ≡ some (x, rest)
unfolding parse
parse-append_text dir x rest d v =
    rw (append-escape [] x)
      (scan-escape dir [] [] x rest d v ∙ ap (λ t. some (t, rest)) (finish-towards dir x d v))
