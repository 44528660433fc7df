-- ===== src/Stringify/Match/Question.antt =====
-- Patterns with a question mark.
use vitex.Common.{ℕ, zero, suc, ◌≡◌, ◌≢◌, refl, arith, List, ◌∷◌, false, ◌==◌, Option, none}
use vitex.Stringify.Match.{Found, bar, walk, match_}

waits :
    (n : ℕ) (again : List ℕ → List ℕ → Option Found) (j : ℕ) (p : List ℕ) (c : ℕ) (t : List ℕ)
    → (c == 0) ≡ false
    → walk n again j (63 ∷ p) (c ∷ t) ≡ none
unfolding walk
waits zero again j p c t h = refl
waits (suc n) again j p c t h = rw (walk, h) (waits n again j p c t h)

-- Matching a pattern that begins with a question mark and has no alternatives against a text
-- whose first byte is not 0 does not end: no fuel is enough.
pub match_question :
    (fuel : ℕ) (p : List ℕ) (c : ℕ) (t : List ℕ)
    → bar p ≡ none
    → c ≢ 0
    → match_ fuel (63 ∷ p) (c ∷ t) ≡ none
unfolding match_ bar
match_question zero p c t e h = refl
match_question (suc n) p c t e h =
    let byte : (c == 0) ≡ false = ground arith in
    rw (match_, bar, e) (waits n (match_ n) 0 p c t byte)
