-- ===== src/Decimal/Text.antt =====
-- Reading a decimal from its text, `apply_base10`, and writing it, `to_string`.
mod Tests
use vitex.Common.{
  ℕ, zero, suc, ◌+◌, ◌-◌, List, [], ◌∷◌, ◌++◌, Bool, true, false, not, ◌&&◌, ◌||◌, leb, ◌==◌,
  if◌then◌else◌,
}
use vitex.Common.Lists.{length}
use vitex.Decimal.Number.{Sign, nan, plus, minus, Decimal, is_nan, not_a_number, drop_zeros}

is_digit : ℕ → Bool
is_digit c = leb b'0' c && leb c b'9'

all_digits : List ℕ → Bool
all_digits [] = true
all_digits (c ∷ cs) = is_digit c && all_digits cs

reverse_onto : List ℕ → List ℕ → List ℕ
reverse_onto [] acc = acc
reverse_onto (c ∷ cs) acc = reverse_onto cs (c ∷ acc)

-- The characters before the first point, and those from it on.
split_point : List ℕ → List ℕ × List ℕ
split_point [] = ([], [])
split_point (c ∷ cs) =
    let (before, after) = split_point cs in if c == b'.' then ([], c ∷ cs) else (c ∷ before, after)

-- The loops behind the sign: the digits before the point, and those after it where there is one.
read_parts : Sign → List ℕ × List ℕ → Decimal
read_parts s (whole, []) =
    if all_digits whole
    then record { source = reverse_onto whole []; length = 0; sign = s }
    else not_a_number
read_parts s (whole, point ∷ places) =
    if all_digits whole && all_digits places
    then record {
      source = reverse_onto places (reverse_onto whole []);
      length = length places;
      sign = s;
    }
    else not_a_number

-- A text of one character is one digit; a longer one begins with a sign or a digit.
pub apply_base10 : List ℕ → Decimal
apply_base10 [] = not_a_number
apply_base10 (c ∷ []) =
    if is_digit c then record { source = c ∷ []; length = 0; sign = plus } else not_a_number
apply_base10 (c ∷ d ∷ cs) =
    if c == b'+'
    then read_parts plus (split_point (d ∷ cs))
    else if c == b'-'
    then read_parts minus (split_point (d ∷ cs))
    else if is_digit c
    then read_parts plus (split_point (c ∷ d ∷ cs))
    else not_a_number

-- The digits at the places from `i` on, the highest first. `size` is the count of those behind the
-- point and `offset` the first that is printed.
print_from : (size offset i : ℕ) → List ℕ → List ℕ
print_from size offset i [] = []
print_from size offset i (c ∷ cs) =
    print_from size offset (suc i) cs
    ++ c ∷ (if i == size && not (i == 0) && not (offset == size) then b'.' ∷ [] else [])

sign_text : Sign → List ℕ
sign_text minus = b'-' ∷ []
sign_text _ = []

is_empty : List ℕ → Bool
is_empty [] = true
is_empty (c ∷ cs) = false

-- Zeros at the end of the places behind the point are not printed.
pub to_string : Decimal → List ℕ
to_string x =
    if is_nan x || is_empty x.source
    then b'N' ∷ b'a' ∷ b'N' ∷ []
    else let (digits, kept) = drop_zeros x.source x.length in
      let offset = x.length - kept in sign_text x.sign ++ print_from x.length offset offset digits
