-- ===== src/Traffic/Counter.antt =====
-- internal/traffic/monitor.go: reading a counter file of the kernel.
use mathlib.Core.List.{reverse, reverse-cons, reverse-reverse}
use x_network.Base.{
  ℕ, zero, suc, ◌+◌, ◌-◌, ◌*◌, ◌/◌, ◌%◌, ◌≤◌, ◌<◌, ◌≡◌, refl, ap, List, [], ◌∷◌, ◌++◌, Option, none,
  some, ltb, if◌then◌else◌, All, arith,
}
use x_network.Sysfs.{
  drop_spaces, trim_space, first_line_of, first_line, parse_from, parse_uint, uint64_mod,
}
use x_network.Traffic.{read_uint64_file}

-- What the kernel prints: the decimal digits of a number, most significant first. The fuel
-- bounds the number.
unfoldable pub decimal : ℕ → ℕ → List ℕ
decimal zero n = []
decimal (suc f) n =
    let front = decimal f (n / 10) in
    if ltb n 10 then (48 + n) ∷ [] else front ++ (48 + n % 10) ∷ []

infixl 5 ◌>>=◌
abbrev ◌>>=◌ : Option ℕ → (ℕ → Option ℕ) → Option ℕ
none >>= k = none
some n >>= k = k n

parse_from-append :
    (n : ℕ) (xs ys : List ℕ) → parse_from n (xs ++ ys) ≡ (parse_from n xs >>= λ m. parse_from m ys)
unfolding parse_from
parse_from-append n [] ys = refl
parse_from-append n (x ∷ xs) ys = ground (arith, parse_from-append (n * 10 + (x - 48)) xs ys)

parse_from-decimal : (f n : ℕ) → n < f → n < uint64_mod → parse_from 0 (decimal f n) ≡ some n
unfolding parse_from decimal
parse_from-decimal zero n h b = absurd (omega arith)
parse_from-decimal (suc f) n h b = ground (
  arith,
  parse_from-append 0 (decimal f (n / 10)) ((48 + n % 10) ∷ []),
  parse_from-decimal f (n / 10),
)

abbrev IsDigit : ℕ → Type 0
IsDigit c = (48 ≤ c) × (c ≤ 57)

digits_append :
    (front back : List ℕ) → All IsDigit front → All IsDigit back → All IsDigit (front ++ back)
digits_append [] back tt digits = digits
digits_append (c ∷ front) back (digit, more) digits = (digit, digits_append front back more digits)

decimal-digits : (f n : ℕ) → All IsDigit (decimal f n)
unfolding decimal
decimal-digits zero n = tt
decimal-digits (suc f) n = ground (
  arith,
  digits_append (decimal f (n / 10)) ((48 + n % 10) ∷ []) (decimal-digits f (n / 10))
      (omega arith, tt),
)

first_line_of-digits : (xs : List ℕ) → All IsDigit xs → first_line_of (xs ++ 10 ∷ []) ≡ xs
first_line_of-digits [] h = refl
first_line_of-digits (x ∷ xs) (d, h) = ground (arith, first_line_of-digits xs h)

drop_spaces-digits : (xs : List ℕ) → All IsDigit xs → drop_spaces xs ≡ xs
drop_spaces-digits [] h = refl
drop_spaces-digits (x ∷ xs) (d, h) = ground arith

reverse-digits : (xs : List ℕ) → All IsDigit xs → All IsDigit (reverse xs)
reverse-digits [] h = tt
reverse-digits (x ∷ xs) (d, h) =
    rw reverse-cons (digits_append (reverse xs) (x ∷ []) (reverse-digits xs h) (d, tt))

trim_space-digits : (xs : List ℕ) → All IsDigit xs → trim_space xs ≡ xs
unfolding trim_space
trim_space-digits xs h =
    rw (drop_spaces-digits xs h, drop_spaces-digits (reverse xs) (reverse-digits xs h))
      (reverse-reverse xs)

first_line-digits : (xs : List ℕ) → All IsDigit xs → first_line (xs ++ 10 ∷ []) ≡ some xs
unfolding first_line
first_line-digits [] h = refl
first_line-digits (x ∷ xs) h = ap some (first_line_of-digits (x ∷ xs) h)

parse_uint-snoc : (xs : List ℕ) (c : ℕ) → parse_uint (xs ++ c ∷ []) ≡ parse_from 0 (xs ++ c ∷ [])
unfolding parse_uint
parse_uint-snoc [] c = refl
parse_uint-snoc (x ∷ xs) c = refl

parse_uint-decimal : (f n : ℕ) → parse_uint (decimal (suc f) n) ≡ parse_from 0 (decimal (suc f) n)
unfolding decimal
parse_uint-decimal f n =
    ground (arith, parse_uint-snoc [] (48 + n), parse_uint-snoc (decimal f (n / 10)) (48 + n % 10))

-- A counter file as the kernel writes it, the decimal number and a newline, is read back as the
-- number, for every uint64.
pub read_uint64_file-decimal :
    (n : ℕ) → n < uint64_mod → read_uint64_file (some (decimal (suc n) n ++ 10 ∷ [])) ≡ n
unfolding read_uint64_file
read_uint64_file-decimal n b = rw (first_line-digits _ (decimal-digits (suc n) n)) (
    rw (trim_space-digits _ (decimal-digits (suc n) n))
      (rw (parse_uint-decimal, parse_from-decimal (suc n) n (omega arith) b)))
