-- ===== src/Bitmap/Tests.antt =====
-- The bitmap on concrete buffers.
use miniob4cqu_db_exp.Common.{◌≡◌, refl, not, ◌&&◌, ◌||◌, none, some, [], ◌∷◌, arith, ◌==◌}
use miniob4cqu_db_exp.Bitmap.{
  Bitmap, get_bit, set_bit, clear_bit, next_unsetted_bit, next_setted_bit, bit_of, find_first,
  find_first_zero, find_first_setted, bytes_for, scan, within,
}
use miniob4cqu_db_exp.Bitmap.Bits.{IsValid, get_bit-set_bit, get_bit-clear_bit}
use miniob4cqu_db_exp.Bitmap.Search.{IsFirst, next_unsetted_bit-IsFirst}

-- Bits 0 to 7 and 9 of twelve are set.
abbrev twelve : Bitmap
twelve = record { bytes = 255 ∷ 2 ∷ []; size = 12 }

twelve-IsValid : IsValid twelve
twelve-IsValid = record { bytes = omega arith; room = omega arith }

first_clear : next_unsetted_bit twelve 0 ≡ some 8
unfolding next_unsetted_bit bytes_for scan within find_first_zero find_first bit_of
first_clear = refl

clear_behind : next_unsetted_bit twelve 9 ≡ some 10
unfolding next_unsetted_bit bytes_for scan within find_first_zero find_first bit_of
clear_behind = refl

first_set_behind : next_setted_bit twelve 8 ≡ some 9
unfolding next_setted_bit bytes_for scan within find_first_setted find_first bit_of
first_set_behind = refl

no_more_set : next_setted_bit twelve 10 ≡ none
unfolding next_setted_bit bytes_for scan within find_first_setted find_first bit_of
no_more_set = refl

get_bit-set_bit_example : get_bit (set_bit twelve 10) 10 ≡ (10 == 10 || get_bit twelve 10)
get_bit-set_bit_example = get_bit-set_bit twelve twelve-IsValid 10 (omega arith) 10

get_bit-clear_bit_example : get_bit (clear_bit twelve 9) 8 ≡ (not (9 == 8) && get_bit twelve 8)
get_bit-clear_bit_example = get_bit-clear_bit twelve twelve-IsValid 9 (omega arith) 8

next_unsetted_bit-IsFirst_example :
    IsFirst (λ j. not (get_bit twelve j)) 3 12 (next_unsetted_bit twelve 3)
next_unsetted_bit-IsFirst_example = next_unsetted_bit-IsFirst twelve 3
