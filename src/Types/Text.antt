-- ===== src/Types/Text.antt =====
-- The parts of Rust's `str` and integer printing that the code uses: `trim().is_empty()`,
-- `is_empty()`, `len()`, `contains` of a character and `u64::to_string`.
pub mod Decimal
pub mod Blank
use Prim.Native.Char.{code}
use Prim.Native.String.{◌++◌ as ◌<>◌}
use wu_kong_easy_sdk_rust.Base.{
  ℕ, zero, suc, ◌+◌, ◌*◌, ◌/◌, ◌%◌, ◌≤◌, ◌<◌, String, ◌≡◌, refl, Bool, true, false, ◌&&◌, ◌||◌,
  arith, leb, ltb, ◌==◌, if◌then◌else◌,
}

-- `char::is_whitespace`: the Unicode property White_Space.
unfoldable pub is_whitespace : ℕ → Bool
is_whitespace c =
    (leb 9 c && leb c 13)
    || c == 32
    || c == 133
    || c == 160
    || c == 5760
    || (leb 8192 c && leb c 8202)
    || c == 8232
    || c == 8233
    || c == 8239
    || c == 8287
    || c == 12288

abbrev pub is_empty : String → Bool
is_empty String.[] = true
is_empty (String.◌∷◌ c s) = false

unfoldable pub trim_start : String → String
unfolding is_whitespace
trim_start String.[] = ""
trim_start (String.◌∷◌ c s) =
    let rest = trim_start s in if is_whitespace (code c) then rest else String.◌∷◌ c s

unfoldable pub trim_end : String → String
unfolding is_whitespace
trim_end String.[] = ""
trim_end (String.◌∷◌ c s) =
    let rest = trim_end s in
    if is_whitespace (code c) && is_empty rest then "" else String.◌∷◌ c rest

unfoldable pub trim : String → String
unfolding trim_start trim_end
trim s = trim_end (trim_start s)

-- The digits of `n.to_string()`; twenty hold every `u64`.
digit : ℕ → String
digit zero = "0"
digit (suc zero) = "1"
digit (suc (suc zero)) = "2"
digit (suc (suc (suc zero))) = "3"
digit (suc (suc (suc (suc zero)))) = "4"
digit (suc (suc (suc (suc (suc zero))))) = "5"
digit (suc (suc (suc (suc (suc (suc zero)))))) = "6"
digit (suc (suc (suc (suc (suc (suc (suc zero))))))) = "7"
digit (suc (suc (suc (suc (suc (suc (suc (suc zero)))))))) = "8"
digit _ = "9"

decimal : ℕ → ℕ → String
unfolding digit
decimal zero n = ""
decimal (suc f) n =
    let rest = decimal f (n / 10) in if ltb n 10 then digit n else rest <> digit (n % 10)

unfoldable pub to_decimal : ℕ → String
unfolding decimal
to_decimal n = decimal 20 n

-- `s.contains(c)` for a character
unfoldable pub contains_char : ℕ → String → Bool
contains_char n String.[] = false
contains_char n (String.◌∷◌ c s) = code c == n || contains_char n s

-- `s.len()`: the number of bytes in UTF-8
unfoldable pub byte_length : String → ℕ
byte_length String.[] = 0
byte_length (String.◌∷◌ c s) =
    let rest = byte_length s in
    if ltb (code c) 128
    then 1 + rest
    else if ltb (code c) 2048
    then 2 + rest
    else if ltb (code c) 65536
    then 3 + rest
    else 4 + rest
