-- ===== src/Int64.antt =====
-- Go's `int64` and, on the 64-bit targets of the program, `int`: a word is its two's complement bit
-- pattern, a number below 2 ^ 64, and the patterns from 2 ^ 63 on are the negative integers.
use gotaxy.Prelude.{ℕ, ◌+◌, ◌-◌, ◌%◌, ◌^◌, ◌<◌, ◌≡◌, Bool, ◌&&◌, ◌||◌, arith, ltb, leb, ◌==◌}

abbrev pub Int64 : Type 0
Int64 = ℕ

abbrev pub max_int64 : Int64
max_int64 = 2 ^ 63 - 1

abbrev pub min_int64 : Int64
min_int64 = 2 ^ 63

-- x + y, wrapping around
unfoldable pub add64 : Int64 → Int64 → Int64
add64 x y = (x + y) % 2 ^ 64

-- x - y, wrapping around
unfoldable pub sub64 : Int64 → Int64 → Int64
sub64 x y = (x + 2 ^ 64 - y) % 2 ^ 64

-- x > 0
abbrev pub is_positive : Int64 → Bool
is_positive x = ltb 0 x && leb x max_int64

-- x <= 0
abbrev pub is_nonpositive : Int64 → Bool
is_nonpositive x = x == 0 || ltb max_int64 x

pub add64_comm : (x y : Int64) → add64 x y ≡ add64 y x
unfolding add64
add64_comm x y = omega arith

pub add64_assoc : (x y z : Int64) → add64 (add64 x y) z ≡ add64 x (add64 y z)
unfolding add64
add64_assoc x y z = omega arith

pub add64_right_comm : (x y z : Int64) → add64 (add64 x y) z ≡ add64 (add64 x z) y
unfolding add64
add64_right_comm x y z = omega arith

pub sub64-add64 : (x y : Int64) → x < 2 ^ 64 → y < 2 ^ 64 → sub64 (add64 x y) y ≡ x
unfolding add64 sub64
sub64-add64 x y hx hy = omega arith

pub add64_lt : (x y : Int64) → add64 x y < 2 ^ 64
unfolding add64
add64_lt x y = omega arith
