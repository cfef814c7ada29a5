-- ===== src/Decimal.antt =====
-- Numbers in decimal, as Rust writes (`u32::to_string`) and reads (`str::parse::<u32>`) them.
use Prim.Native.Char.{Char, code}
use Prim.Native.String.{[], ◌∷◌}
use hpd_handheld_power_daemo.Text.{is_whitespace, HasNoSpace, trim, trim-HasNoSpace}
use hpd_handheld_power_daemo.Prelude.{
  sym, ap, inr, inl, Bool-cases, ℕ, zero, suc, ◌+◌, ◌-◌, ◌*◌, ◌/◌, ◌%◌, ◌^◌, ◌≤◌, ◌<◌, ◌≡◌, refl,
  ◌∙◌, true, false, ◌&&◌, Option, none, some, String, ltb, leb, if◌then◌else◌, arith, ◌==◌, nat_eq,
  string_eq,
}

abbrev pub digit : ℕ → Char
digit zero = "0"
digit (suc zero) = "1"
digit (suc (suc zero)) = "2"
digit (suc (suc (suc zero))) = "3"
digit (suc (suc (suc (suc zero)))) = "4"
digit (suc (suc (suc (suc (suc zero))))) = "5"
digit (suc (suc (suc (suc (suc (suc zero)))))) = "6"
digit (suc (suc (suc (suc (suc (suc (suc zero))))))) = "7"
digit (suc (suc (suc (suc (suc (suc (suc (suc zero)))))))) = "8"
digit _ = "9"

code-digit : (d : ℕ) → d < 10 → code (digit d) ≡ 48 + d
code-digit zero h = refl
code-digit (suc zero) h = refl
code-digit (suc (suc zero)) h = refl
code-digit (suc (suc (suc zero))) h = refl
code-digit (suc (suc (suc (suc zero)))) h = refl
code-digit (suc (suc (suc (suc (suc zero))))) h = refl
code-digit (suc (suc (suc (suc (suc (suc zero)))))) h = refl
code-digit (suc (suc (suc (suc (suc (suc (suc zero))))))) h = refl
code-digit (suc (suc (suc (suc (suc (suc (suc (suc zero)))))))) h = refl
code-digit (suc (suc (suc (suc (suc (suc (suc (suc (suc zero))))))))) h = refl
code-digit (suc (suc (suc (suc (suc (suc (suc (suc (suc (suc d)))))))))) h = ground arith

-- The digits of n before `rest`, on fuel of one for each digit.
unfoldable pub digits : ℕ → ℕ → String → String
digits zero n rest = rest
digits (suc fuel) n rest =
    let more = digits fuel (n / 10) (digit (n % 10) ∷ rest) in
    if ltb n 10 then digit n ∷ rest else more

-- `to_string`: a `u32` has at most 10 digits.
unfoldable pub to_string : ℕ → String
to_string n = digits 10 n []

unfoldable pub parse_digits : ℕ → String → Option ℕ
parse_digits n [] = some n
parse_digits n (ch ∷ rest) =
    let c = code ch in
    let more = parse_digits (n * 10 + (c - 48)) rest in if leb 48 c && leb c 57 then more else none

-- A value above the largest of the type is an error.
abbrev pub at_most : ℕ → Option ℕ → Option ℕ
at_most limit none = none
at_most limit (some n) = if leb n limit then some n else none

-- `parse` for an unsigned type: at least one digit, after a `+` or not.
unfoldable pub parse : ℕ → String → Option ℕ
parse limit [] = none
parse limit (ch ∷ rest) =
    if code ch == 43
    then (if rest == "" then none else at_most limit (parse_digits 0 rest))
    else at_most limit (parse_digits 0 (ch ∷ rest))

is_digit : (d : ℕ) → d < 10 → (leb 48 (48 + d) && leb (48 + d) 57) ≡ true
is_digit d h = ground arith

parse_digits-digit :
    (d n : ℕ) (rest : String)
    → d < 10
    → parse_digits n (digit d ∷ rest) ≡ parse_digits (n * 10 + d) rest
unfolding parse_digits
parse_digits-digit d n rest h =
    rw (code-digit d h) (rw (is_digit d h) (ap (λ m. parse_digits m rest) (omega arith)))

parse_digits-digits :
    (fuel n : ℕ) (rest : String)
    → n < 10 ^ fuel
    → parse_digits 0 (digits fuel n rest) ≡ parse_digits n rest
unfolding digits
parse_digits-digits zero n rest h = ground arith
parse_digits-digits (suc fuel) n rest h = elim (Bool-cases (ltb n 10)) [
  | inl small ↦
      rw small
        (parse_digits-digit n 0 rest (ground arith) ∙ ap (λ m. parse_digits m rest) (omega arith))
  | inr large ↦ rw large (
      parse_digits-digits fuel (n / 10) (digit (n % 10) ∷ rest) (omega (arith, h))
      ∙ parse_digits-digit (n % 10) (n / 10) rest (omega arith)
      ∙ ap (λ m. parse_digits m rest) (omega arith))
]

abbrev StartsWithDigit : String → Type 0
StartsWithDigit s = (d : ℕ) × (r : String) × (d < 10) × (s ≡ digit d ∷ r)

digits-StartsWithDigit :
    (fuel n k : ℕ) (rest : String) → k < 10 → StartsWithDigit (digits fuel n (digit k ∷ rest))
unfolding digits
digits-StartsWithDigit zero n k rest h = (k, rest, h, refl)
digits-StartsWithDigit (suc fuel) n k rest h = elim (Bool-cases (ltb n 10)) [
  | inl small ↦ (n, digit k ∷ rest, ground arith, rw small refl)
  | inr large ↦
      rw large (digits-StartsWithDigit fuel (n / 10) (n % 10) (digit k ∷ rest) (omega arith))
]

to_string-StartsWithDigit : (n : ℕ) → StartsWithDigit (to_string n)
unfolding to_string digits
to_string-StartsWithDigit n = elim (Bool-cases (ltb n 10)) [
  | inl small ↦ (n, [], ground arith, rw small refl)
  | inr large ↦ rw large (digits-StartsWithDigit 9 (n / 10) (n % 10) [] (omega arith))
]

no_plus : (d : ℕ) → (48 + d == 43) ≡ false
no_plus d = ground arith

parse-digit :
    (limit d : ℕ) (rest : String)
    → d < 10
    → parse limit (digit d ∷ rest) ≡ at_most limit (parse_digits 0 (digit d ∷ rest))
unfolding parse
parse-digit limit d rest h = rw (code-digit d h) (rw (no_plus d) refl)

-- A number in the range of the type that has at most 10 digits is read back as it was written.
pub parse-to_string :
    (limit n : ℕ) → n ≤ limit → n < 10000000000 → parse limit (to_string n) ≡ some n
unfolding to_string parse_digits
parse-to_string limit n fits small =
    let (d, r, h, e) = to_string-StartsWithDigit n in
    ap (λ s. parse limit s) e
    ∙ parse-digit limit d r h
    ∙ ap (λ s. at_most limit (parse_digits 0 s)) (sym e)
    ∙ ap (λ o. at_most limit o) (parse_digits-digits 10 n [] small)
    ∙ ground arith

digit-not_whitespace : (d : ℕ) → d < 10 → is_whitespace (digit d) ≡ false
digit-not_whitespace d h = rw (code-digit d h) (ground (arith, h))

digits-HasNoSpace : (fuel n : ℕ) (rest : String) → HasNoSpace rest → HasNoSpace (digits fuel n rest)
unfolding digits
digits-HasNoSpace zero n rest h = h
digits-HasNoSpace (suc fuel) n rest h = elim (Bool-cases (ltb n 10)) [
  | inl small ↦ rw small (digit-not_whitespace n (ground arith), h)
  | inr large ↦ rw large (
      digits-HasNoSpace fuel (n / 10) (digit (n % 10) ∷ rest)
        (digit-not_whitespace (n % 10) (omega arith), h))
]

-- Nothing is trimmed off a number as it is printed.
pub trim-to_string : (n : ℕ) → trim (to_string n) ≡ to_string n
unfolding to_string
trim-to_string n = trim-HasNoSpace _ (digits-HasNoSpace 10 n [] tt)
