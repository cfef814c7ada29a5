-- ===== src/Text.antt =====
-- What the program uses of Rust's `str`: `trim`, `to_lowercase`, `split_whitespace`, `lines`.
use hpd_handheld_power_daemo.Prelude.{
  inr, inl, Bool-cases, none, some, Option, string_eq, nat_eq, ◌∙◌, ◌==◌, ◌-◌, ◌||◌, false, ◌&&◌,
  ap, refl, List, leb, if◌then◌else◌, ◌≡◌, Bool,
}
use Prim.Native.Char.{Char, code}
use Prim.Native.String.{String, [], ◌∷◌, ◌++◌, char_at}

-- Unicode's `White_Space`.
abbrev pub is_whitespace : Char → Bool
is_whitespace ch =
    let c = code ch in
    (leb 9 c && leb c 13)
    || c == 32
    || c == 133
    || c == 160
    || c == 5760
    || (leb 8192 c && leb c 8202)
    || c == 8232
    || c == 8233
    || c == 8239
    || c == 8287
    || c == 12288

unfoldable pub trim_start : String → String
trim_start [] = []
trim_start (ch ∷ rest) =
    let trimmed = trim_start rest in if is_whitespace ch then trimmed else ch ∷ rest

unfoldable pub trim_end : String → String
trim_end [] = []
trim_end (ch ∷ rest) =
    let trimmed = trim_end rest in if is_whitespace ch && trimmed == "" then [] else ch ∷ trimmed

unfoldable pub trim : String → String
trim s = trim_end (trim_start s)

-- The lower case of a letter from `A` to `Z`; every other character is kept.
abbrev pub lower : Char → Char
lower ch =
    let c = code ch in
    if leb 65 c && leb c 90 then char_at "abcdefghijklmnopqrstuvwxyz" (c - 65) else ch

-- `to_ascii_lowercase`, and `to_lowercase` of a text whose letters are ASCII.
unfoldable pub to_lowercase : String → String
to_lowercase [] = []
to_lowercase (ch ∷ rest) = lower ch ∷ to_lowercase rest

-- The word in front of the words that follow it, if it has a character.
abbrev pub cons_word : String → List String → List String
cons_word [] ws = ws
cons_word (ch ∷ w) ws = List.◌∷◌ (ch ∷ w) ws

-- `split_whitespace`, behind the characters of a word that are read already.
unfoldable pub words_from : String → String → List String
words_from word [] = cons_word word List.[]
words_from word (ch ∷ rest) =
    let longer = words_from (word ++ (ch ∷ [])) rest in
    let shorter = words_from [] rest in if is_whitespace ch then cons_word word shorter else longer

unfoldable pub split_whitespace : String → List String
split_whitespace = words_from []

-- No character is white space.
abbrev pub HasNoSpace : String → Type 0
HasNoSpace [] = Unit
HasNoSpace (ch ∷ rest) = (is_whitespace ch ≡ false) × HasNoSpace rest

trim_end-HasNoSpace : (s : String) → HasNoSpace s → trim_end s ≡ s
unfolding trim_end
trim_end-HasNoSpace [] h = refl
trim_end-HasNoSpace (ch ∷ rest) h = rw (h.0) (ap (λ t. ch ∷ t) (trim_end-HasNoSpace rest h.1))

trim_start-HasNoSpace : (s : String) → HasNoSpace s → trim_start s ≡ s
unfolding trim_start
trim_start-HasNoSpace [] h = refl
trim_start-HasNoSpace (ch ∷ rest) h = rw (h.0) refl

pub trim-HasNoSpace : (s : String) → HasNoSpace s → trim s ≡ s
unfolding trim
trim-HasNoSpace s h = ap trim_end (trim_start-HasNoSpace s h) ∙ trim_end-HasNoSpace s h

-- `str::strip_prefix`
unfoldable pub strip_prefix : String → String → Option String
strip_prefix [] s = some s
strip_prefix (p ∷ ps) [] = none
strip_prefix (p ∷ ps) (ch ∷ rest) =
    let more = strip_prefix ps rest in if code p == code ch then more else none

-- A line without the carriage return at its end.
unfoldable pub without_return : String → String
without_return [] = []
without_return (ch ∷ rest) =
    let more = without_return rest in if code ch == 13 && rest == "" then [] else ch ∷ more

abbrev pub last_line : String → List String
last_line [] = List.[]
last_line (ch ∷ line) = List.◌∷◌ (ch ∷ line) List.[]

-- `str::lines`, behind the characters of a line that are read already.
unfoldable pub lines_from : String → String → List String
lines_from line [] = last_line line
lines_from line (ch ∷ rest) =
    let next = lines_from [] rest in
    let longer = lines_from (line ++ (ch ∷ [])) rest in
    if code ch == 10 then List.◌∷◌ (without_return line) next else longer

unfoldable pub lines : String → List String
lines = lines_from []

-- `chars().take_while(|c| c.is_ascii_digit())`
unfoldable pub leading_digits : String → String
leading_digits [] = []
leading_digits (ch ∷ rest) =
    let c = code ch in
    let more = leading_digits rest in if leb 48 c && leb c 57 then ch ∷ more else []

trim_end-trim_end : (s : String) → trim_end (trim_end s) ≡ trim_end s
unfolding trim_end
trim_end-trim_end [] = refl
trim_end-trim_end (ch ∷ rest) = elim (Bool-cases (is_whitespace ch && trim_end rest == "")) [
  | inl gone ↦ rw gone refl
  | inr kept ↦ rw kept (rw (trim_end-trim_end rest) (rw kept refl))
]

-- The text is empty or starts with a character that is no white space.
abbrev StartsClean : String → Type 0
StartsClean [] = Unit
StartsClean (ch ∷ rest) = is_whitespace ch ≡ false

trim_start-StartsClean : (s : String) → StartsClean (trim_start s)
unfolding trim_start
trim_start-StartsClean [] = tt
trim_start-StartsClean (ch ∷ rest) = elim (Bool-cases (is_whitespace ch)) [
  | inl space ↦ rw space (trim_start-StartsClean rest)
  | inr other ↦ rw other other
]

trim_start-trim_end : (s : String) → StartsClean s → trim_start (trim_end s) ≡ trim_end s
unfolding trim_start trim_end
trim_start-trim_end [] c = refl
trim_start-trim_end (ch ∷ rest) c = rw c (rw c refl)

-- A text that is trimmed stays as it is.
pub trim-trim : (s : String) → trim (trim s) ≡ trim s
unfolding trim
trim-trim s =
    ap trim_end (trim_start-trim_end (trim_start s) (trim_start-StartsClean s))
    ∙ trim_end-trim_end (trim_start s)
