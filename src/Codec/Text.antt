-- ===== src/Codec/Text.antt =====
-- `append(bytes &, const string &)` and the `parse` that reads it back, with the end of a key
-- (`infinity`) and the text that may be one (codec.h).
pub mod RoundTrip
pub mod Order
use miniob4cqu_db_exp.Common.{
  ℕ, zero, suc, ◌≡◌, Bool, true, false, ◌&&◌, ◌||◌, not, Option, none, some, List, [], ◌∷◌, ◌++◌,
  bit_xor, ◌==◌, if◌then◌else◌, Rc,
}
use miniob4cqu_db_exp.Codec.Bytes.{increasing, decreasing, invert}

abbrev pub term : List ℕ
term = 0x00 ∷ 0x01 ∷ []

abbrev pub lit00 : List ℕ
lit00 = 0x00 ∷ 0xff ∷ []

abbrev pub litff : List ℕ
litff = 0xff ∷ 0x00 ∷ []

abbrev pub inf : List ℕ
inf = 0xff ∷ 0xff ∷ []

-- The loop of `append`: `run` is the part from l to c, which is inserted at the next byte that is
-- written as two, or at the end.
unfoldable pub copy : List ℕ → List ℕ → List ℕ → List ℕ
copy s run [] = s ++ run
copy s run (c ∷ x) = elim (c == 0x00) [
  | true ↦ copy (s ++ (run ++ lit00)) [] x
  | false ↦ elim (c == 0xff) [
    | true ↦ copy (s ++ (run ++ litff)) [] x
    | false ↦ copy s (run ++ c ∷ []) x
  ]
]

unfoldable pub append : List ℕ → List ℕ → List ℕ
unfolding copy
append s x = copy s [] x ++ term

-- The end of `parse`: at l = 0 in the increasing direction the code copies the text straight from s,
-- which `buf ++ run` is, `buf` being empty.
unfoldable pub finish : ℕ → List ℕ → List ℕ
finish dir buf = if dir == decreasing then invert buf else buf

-- The loop of `parse`: `run` is the part of s from l to i. `none` is RC::INVALID_ARGUMENT; else the
-- text and the bytes behind it.
unfoldable pub scan : ℕ → List ℕ → List ℕ → List ℕ → Option (List ℕ × List ℕ)
unfolding finish
scan dir buf run [] = none
scan dir buf run (b ∷ []) =
    let rest = scan dir buf (run ++ b ∷ []) [] in
    if bit_xor b dir == 0x00 then none else if bit_xor b dir == 0xff then none else rest
scan dir buf run (b ∷ n ∷ s) = elim (bit_xor b dir == 0x00) [
  | true ↦ elim (bit_xor n dir == 0x01) [
    | true ↦ some (finish dir (buf ++ run), s)
    | false ↦ elim (bit_xor n dir == 0xff) [
      | true ↦ scan dir (buf ++ (run ++ bit_xor 0x00 dir ∷ [])) [] s
      | false ↦ none
    ]
  ]
  | false ↦ elim (bit_xor b dir == 0xff) [
    | true ↦ elim (bit_xor n dir == 0x00) [
      | true ↦ scan dir (buf ++ (run ++ bit_xor 0xff dir ∷ [])) [] s
      | false ↦ none
    ]
    | false ↦ scan dir buf (run ++ b ∷ []) (n ∷ s)
  ]
]

unfoldable pub parse : List ℕ → ℕ → Option (List ℕ × List ℕ)
unfolding scan
parse s dir = scan dir [] [] s

-- `append(bytes &, const infinity &)` and its `parse`.
unfoldable pub append_infinity : List ℕ → List ℕ
append_infinity s = s ++ inf

unfoldable pub parse_infinity : List ℕ → ℕ → Option (List ℕ)
parse_infinity [] dir = none
parse_infinity (a ∷ []) dir = none
parse_infinity (a ∷ b ∷ s) dir =
    if not (bit_xor a dir == 0xff) || not (bit_xor b dir == 0xff) then none else some s
