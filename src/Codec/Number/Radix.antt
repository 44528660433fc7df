-- ===== src/Codec/Number/Radix.antt =====
-- The digits of `base10_to_base_n`.
use vitex.Common.{
  ℕ, zero, suc, ◌+◌, ◌*◌, ◌/◌, ◌%◌, ◌^◌, ◌≡◌, ◌≢◌, ◌≤◌, ◌<◌, arith, refl, ap, ◌∙◌, List, [], ◌∷◌,
  Bool, true, false, ◌==◌, if_both, Bool-cases, inl, inr, Option, none, some, pow-add,
}
use native.Mathlib.Nat.{div-lt_iff_lt-mul, mul-le-mul_left, div-add-mod, mod-lt, div-one}
use vitex.Codec.Chars.{at, equal_of, all_below, all_below_lem}
use vitex.Codec.Base64.{offset_of64, base64_set}
use vitex.Codec.Number.{base62_set, base_set, write_base, base10_to_base_n}

-- The number that digits spell in a base, the highest first, behind what was read.
unfoldable pub read_base : List ℕ → ℕ → List ℕ → ℕ → ℕ
read_base set base [] value = value
read_base set base (c ∷ text) value = read_base set base text (value * base + offset_of64 set c)

-- Characters are told apart by their places.
abbrev is_place : List ℕ → ℕ → Bool
is_place set i = offset_of64 set (at set i) == i

offset-at : (base i : ℕ) → i < 64 → offset_of64 (base_set base) (at (base_set base) i) ≡ i
offset-at base i h =
    if_both (λ (set : List ℕ). offset_of64 set (at set i) ≡ i) (base == 64)
      (λ e. equal_of _ i (all_below_lem 64 (is_place base64_set) good64 i h))
      (λ e. equal_of _ i (all_below_lem 64 (is_place base62_set) good62 i h))
  where
    good64 : all_below 64 (is_place base64_set) ≡ true
    good64 = unfold offset_of64 in refl

    good62 : all_below 64 (is_place base62_set) ≡ true
    good62 = unfold offset_of64 in refl

halved : (fuel value base : ℕ) → 2 ≤ base → value < 2 ^ suc fuel → value / base < 2 ^ fuel
halved fuel value base h l =
    (div-lt_iff_lt-mul (omega arith)).1
      (omega (arith, pow-add 2 1 fuel, mul-le-mul_left (2 ^ fuel) h))

module _ (base : ℕ) (h : 2 ≤ base) (k : base ≤ 64) where
  write_base_lem :
      (fuel value : ℕ) (output : List ℕ)
      → value < 2 ^ fuel
      → (text : List ℕ) × (write_base fuel (base_set base) base value output ≡ some text)
        × (read_base (base_set base) base text 0 ≡ read_base (base_set base) base output value)
  unfolding write_base read_base
  write_base_lem zero value output l =
      let nothing : value ≡ 0 = omega arith in (output, rw nothing refl, rw nothing refl)
  write_base_lem (suc fuel) value output l = elim (Bool-cases (value == 0)) [
    | inl e ↦
        let nothing : value ≡ 0 = ground (arith, e) in (output, rw nothing refl, rw nothing refl)
    | inr e ↦
        let (text, run, read) =
          write_base_lem fuel (value / base) (at (base_set base) (value % base) ∷ output)
            (halved fuel value base h l) in
        (text, rw e run, read ∙ ap (read_base (base_set base) base output) digit)
  ]
    where
      digit :
          value / base * base + offset_of64 (base_set base) (at (base_set base) (value % base))
          ≡ value
      digit =
          let small : value % base < base = mod-lt value (omega arith) in
          rw (offset-at base (value % base) (omega arith)) (omega (arith, div-add-mod value base))

  -- For a base from 2 to 64 and a value of 64 bits other than 0, base10_to_base_n ends with a
  -- text whose digits in its alphabet spell the value in that base.
  pub read_base-base10_to_base_n :
      (value : ℕ)
      → value ≢ 0
      → value < 2 ^ 64
      → (text : List ℕ) × (base10_to_base_n value base ≡ some text)
        × (read_base (base_set base) base text 0 ≡ value)
  read_base-base10_to_base_n value nz l =
      let (text, run, read) = write_base_lem 64 value [] l in
      (text, started value nz text run, read ∙ nothing_read value)
    where
      nothing_read : (value : ℕ) → read_base (base_set base) base [] value ≡ value
      nothing_read value = unfold read_base in refl

      started :
          (value : ℕ)
          → value ≢ 0
          → (text : List ℕ) → write_base 64 (base_set base) base value [] ≡ some text
          → base10_to_base_n value base ≡ some text
      started value nz text run =
          unfold base10_to_base_n in
          if_both (λ (o : Option (List ℕ)). o ≡ some text) (value == 0)
            (λ e. absurd (nz (equal_of value 0 e))) (λ e. run)

-- In base 1, which the assertion of base10_to_base_n admits, its loop does not end for a value
-- other than 0, however much fuel it has.
pub base10_to_base_n-one :
    (fuel value : ℕ) (set output : List ℕ) → value ≢ 0 → write_base fuel set 1 value output ≡ none
unfolding write_base
base10_to_base_n-one zero value set output nz =
    let other : value == 0 ≡ false = ground (arith, nz) in rw other refl
base10_to_base_n-one (suc fuel) value set output nz =
    let other : value == 0 ≡ false = ground (arith, nz) in
    rw (other, div-one value) (base10_to_base_n-one fuel value set _ nz)
