-- ===== src/Vless/Bytes.antt =====
-- Python's index and slice on bytes, and how they read a buffer that has grown.
use lumen_project_final.Prelude.{
  ℕ, zero, suc, ◌+◌, ◌*◌, ◌≤◌, ◌<◌, ◌≡◌, refl, ap, List, [], ◌∷◌, ◌++◌, arith, length, take, drop,
}

-- `b[i]`, of which each use stands behind a check of the length.
abbrev pub byte_at : ℕ → List ℕ → ℕ
byte_at i [] = 0
byte_at zero (x ∷ xs) = x
byte_at (suc i) (x ∷ xs) = byte_at i xs

-- `b[i:i + n]`
abbrev pub slice : ℕ → ℕ → List ℕ → List ℕ
slice i n xs = take n (drop i xs)

-- `int.from_bytes(b[i:i + 2], "big")`
abbrev pub word_at : ℕ → List ℕ → ℕ
word_at i xs = 256 * byte_at i xs + byte_at (i + 1) xs

pub byte_at-append : (i : ℕ) (xs ys : List ℕ) → i < length xs → byte_at i (xs ++ ys) ≡ byte_at i xs
byte_at-append i [] ys h = absurd (omega arith)
byte_at-append zero (x ∷ xs) ys h = refl
byte_at-append (suc i) (x ∷ xs) ys h = byte_at-append i xs ys (omega arith)

pub drop-append :
    {A : Type 0} (i : ℕ) (xs ys : List A) → i ≤ length xs → drop i (xs ++ ys) ≡ drop i xs ++ ys
drop-append zero xs ys h = refl
drop-append (suc i) [] ys h = absurd (omega arith)
drop-append (suc i) (x ∷ xs) ys h = drop-append i xs ys (omega arith)

pub take-append :
    {A : Type 0} (i : ℕ) (xs ys : List A) → i ≤ length xs → take i (xs ++ ys) ≡ take i xs
take-append zero xs ys h = refl
take-append (suc i) [] ys h = absurd (omega arith)
take-append (suc i) (x ∷ xs) ys h = ap (◌∷◌ x) (take-append i xs ys (omega arith))

pub slice-append :
    (i n : ℕ) (xs ys : List ℕ) → i + n ≤ length xs → slice i n (xs ++ ys) ≡ slice i n xs
slice-append zero n xs ys h = take-append n xs ys (omega arith)
slice-append (suc i) n [] ys h = absurd (omega arith)
slice-append (suc i) n (x ∷ xs) ys h = slice-append i n xs ys (omega arith)
