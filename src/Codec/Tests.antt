-- ===== src/Codec/Tests.antt =====
-- Encodings of concrete keys.
use miniob4cqu_db_exp.Common.{◌≡◌, refl, inl, inr, none, some, [], ◌∷◌, ◌++◌, arith}
use miniob4cqu_db_exp.Codec.Bytes.{increasing, decreasing, towards, Before}
use miniob4cqu_db_exp.Codec.Unsigned
use miniob4cqu_db_exp.Codec.Unsigned.RoundTrip.{parse-append}
use miniob4cqu_db_exp.Codec.Unsigned.Order.{append-Before}
use miniob4cqu_db_exp.Codec.Text
use miniob4cqu_db_exp.Codec.Text.RoundTrip.{parse-append_text}
use miniob4cqu_db_exp.Codec.Text.Order.{append-Before_text}

number_bytes : Unsigned.append [] 300 ≡ 2 ∷ 1 ∷ 44 ∷ []
unfolding Unsigned.append Unsigned.fill
number_bytes = refl

zero_bytes : Unsigned.append [] 0 ≡ 0 ∷ []
unfolding Unsigned.append Unsigned.fill
zero_bytes = refl

short_number : Unsigned.parse (2 ∷ 1 ∷ []) increasing ≡ none
unfolding Unsigned.parse
short_number = refl

text_bytes : Text.append [] (7 ∷ 0 ∷ 255 ∷ 9 ∷ []) ≡ 7 ∷ 0 ∷ 255 ∷ 255 ∷ 0 ∷ 9 ∷ 0 ∷ 1 ∷ []
unfolding Text.append Text.copy
text_bytes = refl

bad_text : Text.parse (7 ∷ 0 ∷ 2 ∷ []) increasing ≡ none
unfolding Text.parse Text.scan
bad_text = refl

end_of_keys : Text.parse_infinity (Text.append_infinity []) increasing ≡ some []
unfolding Text.parse_infinity Text.append_infinity
end_of_keys = refl

parse-append_example :
    Unsigned.parse (towards decreasing (Unsigned.append [] 300) ++ 5 ∷ []) decreasing
    ≡ some (300, 5 ∷ [])
parse-append_example = parse-append decreasing 300 (5 ∷ []) (inr refl) (omega arith)

append-Before_example :
    Before (Unsigned.append [] 255) (Unsigned.append [] 256)
    × Before
        (towards decreasing (Unsigned.append [] 256))
        (towards decreasing (Unsigned.append [] 255))
append-Before_example = append-Before 255 256 (omega arith) (omega arith)

parse-append_text_example :
    Text.parse (towards increasing (Text.append [] (0 ∷ 255 ∷ [])) ++ 5 ∷ []) increasing
    ≡ some (0 ∷ 255 ∷ [], 5 ∷ [])
parse-append_text_example =
    parse-append_text increasing (0 ∷ 255 ∷ []) (5 ∷ []) (inl refl) (omega arith)

append-Before_text_example :
    Before (Text.append [] (7 ∷ [])) (Text.append [] (7 ∷ 0 ∷ []))
    × Before
        (towards decreasing (Text.append [] (7 ∷ 0 ∷ [])))
        (towards decreasing (Text.append [] (7 ∷ [])))
append-Before_text_example =
    append-Before_text (7 ∷ []) (7 ∷ 0 ∷ []) (omega arith) (omega arith) (inr (refl, tt))
