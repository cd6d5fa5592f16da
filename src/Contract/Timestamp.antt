-- ===== src/Contract/Timestamp.antt =====
-- `is_utc_rfc3339` of crates/remtene-contracts/src/worker.rs, on the bytes of a text.
use rem_tene_public.Base.{
  ℕ, zero, suc, Bool, true, false, not, ◌&&◌, ◌||◌, Option, none, some, List, [], ◌∷◌, ltb, leb,
  ◌==◌, length, if◌then◌else◌,
}

abbrev is_ascii_digit : ℕ → Bool
is_ascii_digit b = leb b'0' b && leb b b'9'

-- `bytes[index] == b`; the program panics where there is no such byte, which the first test of
-- `is_utc_rfc3339` excludes.
abbrev is_at : List ℕ → ℕ → (ℕ → Bool) → Bool
is_at [] i p = false
is_at (b ∷ bs) zero p = p b
is_at (b ∷ bs) (suc i) p = is_at bs i p

abbrev last : List ℕ → Option ℕ
last [] = none
last (b ∷ []) = some b
last (b ∷ c ∷ bs) = last (c ∷ bs)

abbrev all : (ℕ → Bool) → List ℕ → Bool
all p [] = true
all p (x ∷ xs) = p x && all p xs

abbrev drop : ℕ → List ℕ → List ℕ
drop zero bs = bs
drop (suc n) [] = []
drop (suc n) (b ∷ bs) = drop n bs

-- Without the last byte.
abbrev init : List ℕ → List ℕ
init [] = []
init (b ∷ []) = []
init (b ∷ c ∷ bs) = b ∷ init (c ∷ bs)

abbrev is_z : Option ℕ → Bool
is_z none = false
is_z (some b) = b == b'Z'

abbrev fixed_digits : List ℕ
fixed_digits = 0 ∷ 1 ∷ 2 ∷ 3 ∷ 5 ∷ 6 ∷ 8 ∷ 9 ∷ 11 ∷ 12 ∷ 14 ∷ 15 ∷ 17 ∷ 18 ∷ []

is_fraction : List ℕ → Bool
is_fraction [] = true
is_fraction (b ∷ bs) = b == b'.' && (not (length bs == 0) && all is_ascii_digit bs)

unfoldable pub is_utc_rfc3339 : List ℕ → Bool
unfolding is_fraction
is_utc_rfc3339 bytes =
    if ltb (length bytes) 20
      || (not (is_at bytes 4 (λ b. b == b'-'))
          || (not (is_at bytes 7 (λ b. b == b'-'))
              || (not (is_at bytes 10 (λ b. b == b'T'))
                  || (not (is_at bytes 13 (λ b. b == b':'))
                      || (not (is_at bytes 16 (λ b. b == b':')) || not (is_z (last bytes)))))))
    then false
    else if not (all (λ index. is_at bytes index is_ascii_digit) fixed_digits)
    then false
    else is_fraction (init (drop 19 bytes))
