-- ===== src/Common/Bytes.antt =====
-- Numbers as lists of bytes, the highest byte first.
use Prim.Native.Nat.{ℕ, zero, suc, ◌+◌, ◌*◌, ◌/◌, ◌%◌, ◌^◌, ◌<◌}
use mathlib.Core.Path.{◌≡◌, refl, ap, ap₂, sym, ◌∙◌}
use mathlib.Core.List.{List, [], ◌∷◌, ◌++◌, append_assoc, append-nil}
use native.Mathlib.Omega.{arith}
use native.Mathlib.Nat.{add-zero, pow-suc, add-suc}
use vitex.Common.Lists.{length, length-append, replicate, drop, drop-append_length}

-- The lowest `n` bytes of a number.
abbrev pub be_bytes : ℕ → ℕ → List ℕ
be_bytes zero x = []
be_bytes (suc n) x = be_bytes n (x / 256) ++ (x % 256) ∷ []

abbrev pub of_be_from : ℕ → List ℕ → ℕ
of_be_from acc [] = acc
of_be_from acc (c ∷ cs) = of_be_from (acc * 256 + c) cs

-- The number that bytes spell.
abbrev pub of_be : List ℕ → ℕ
of_be cs = of_be_from 0 cs

pub length-be_bytes : (n x : ℕ) → length (be_bytes n x) ≡ n
length-be_bytes zero x = refl
length-be_bytes (suc n) x =
    omega
      (arith, length-append (be_bytes n (x / 256)) ((x % 256) ∷ []), length-be_bytes n (x / 256))

pub of_be_from-append :
    (acc : ℕ) (xs ys : List ℕ) → of_be_from acc (xs ++ ys) ≡ of_be_from (of_be_from acc xs) ys
of_be_from-append acc [] ys = refl
of_be_from-append acc (x ∷ xs) ys = of_be_from-append (acc * 256 + x) xs ys

pub of_be_from-be_bytes :
    (acc n x : ℕ) → x < 256 ^ n → of_be_from acc (be_bytes n x) ≡ acc * 256 ^ n + x
of_be_from-be_bytes acc zero x h = omega arith
of_be_from-be_bytes acc (suc n) x h =
    of_be_from-append acc (be_bytes n (x / 256)) ((x % 256) ∷ [])
    ∙ omega (
      arith,
      of_be_from-be_bytes acc n (x / 256) (omega (arith, pow-suc 256 n)),
      ap (λ (t : ℕ). acc * t) (pow-suc 256 n),
    )

-- The bytes of a number spell it, if they are enough.
pub of_be-be_bytes : (n x : ℕ) → x < 256 ^ n → of_be (be_bytes n x) ≡ x
of_be-be_bytes n x h = omega (arith, of_be_from-be_bytes 0 n x h)

pub of_be_from-zeros : (acc n : ℕ) → of_be_from acc (replicate n 0) ≡ acc * 256 ^ n
of_be_from-zeros acc zero = omega arith
of_be_from-zeros acc (suc n) =
    omega (arith, of_be_from-zeros (acc * 256 + 0) n, ap (λ (t : ℕ). acc * t) (pow-suc 256 n))

-- The bytes of a number are those of its upper part and those of its lower part.
pub be_bytes-append :
    (m n a b : ℕ) → b < 256 ^ n → be_bytes m a ++ be_bytes n b ≡ be_bytes (m + n) (a * 256 ^ n + b)
be_bytes-append m zero a b h =
    append-nil (be_bytes m a) ∙ ap₂ be_bytes (sym (add-zero m)) (all_upper a b h)
  where
    all_upper : (u v : ℕ) → v < 256 ^ 0 → u ≡ u * 256 ^ 0 + v
    all_upper u v k = omega arith
be_bytes-append m (suc n) a b h =
    sym (append_assoc (be_bytes m a) (be_bytes n (b / 256)) ((b % 256) ∷ []))
    ∙ ap (λ (t : List ℕ). t ++ (b % 256) ∷ [])
        (be_bytes-append m n a (b / 256) (omega (arith, pow-suc 256 n)))
    ∙ ap₂ (λ (u v : ℕ). be_bytes (m + n) u ++ v ∷ []) upper lower
    ∙ ap (λ (k : ℕ). be_bytes k (a * 256 ^ suc n + b)) (sym (add-suc m n))
  where
    place : a * 256 ^ suc n ≡ a * 256 ^ n * 256
    place = omega (arith, ap (λ (t : ℕ). a * t) (pow-suc 256 n))

    upper : a * 256 ^ n + b / 256 ≡ (a * 256 ^ suc n + b) / 256
    upper = omega (arith, place)

    lower : b % 256 ≡ (a * 256 ^ suc n + b) % 256
    lower = omega (arith, place)

-- A number that fits the lower bytes has zeros above.
pub drop-be_bytes : (k n x : ℕ) → x < 256 ^ n → drop k (be_bytes (k + n) x) ≡ be_bytes n x
drop-be_bytes k n x h =
    ap (λ (t : ℕ). drop k (be_bytes (k + n) t)) no_upper
    ∙ ap (drop k) (sym (be_bytes-append k n 0 x h))
    ∙ drop-append_length k (be_bytes k 0) (be_bytes n x) (length-be_bytes k 0)
  where
    no_upper : x ≡ 0 * 256 ^ n + x
    no_upper = omega arith

-- What stands before shifts up by the bytes that follow.
pub of_be_from-scale :
    (acc : ℕ) (xs : List ℕ) → of_be_from acc xs ≡ acc * 256 ^ length xs + of_be xs
of_be_from-scale acc [] = omega arith
of_be_from-scale acc (x ∷ xs) = omega (
  arith,
  of_be_from-scale (acc * 256 + x) xs,
  of_be_from-scale (0 * 256 + x) xs,
  ap (λ (t : ℕ). acc * t) (pow-suc 256 (length xs)),
)
