-- ===== src/Http/Bytes.antt =====
-- Python's bytes, as lists of byte values, with the operations that app/core/middleware.py applies to
-- header names and values.
use ai_platform_template.Base.{
  ℕ, zero, suc, ◌+◌, ◌-◌, ◌*◌, ◌/◌, ◌%◌, ◌≡◌, ◌↔◌, refl, String, Bool, true, false, ◌&&◌, ◌||◌,
  Option, none, some, List, [], ◌∷◌, arith, leb, ltb, nat_beq, if◌then◌else◌,
}
use ai_platform_template.Base.Eq.{Keyed, nat_eq}
use Prim.Native.Char.{code}
use Prim.Native.String.{[] as string_end, ◌∷◌ as ◌then◌}

abbrev pub Bytes : Type 0
Bytes = List ℕ

-- A bytes literal, of ASCII characters.
abbrev pub ascii : String → Bytes
ascii string_end = []
ascii (c then s) = code c ∷ ascii s

unfoldable pub bytes_equals : Bytes → Bytes → Bool
bytes_equals [] [] = true
bytes_equals [] (y ∷ ys) = false
bytes_equals (x ∷ xs) [] = false
bytes_equals (x ∷ xs) (y ∷ ys) = nat_beq x y && bytes_equals xs ys

pub bytes_equals_iff : (xs ys : Bytes) → (bytes_equals xs ys ≡ true) ↔ (xs ≡ ys)
unfolding bytes_equals
bytes_equals_iff [] [] = (λ _. refl, λ _. refl)
bytes_equals_iff [] (y ∷ ys) = (λ e. ground arith, λ e. ground arith)
bytes_equals_iff (x ∷ xs) [] = (λ e. ground arith, λ e. ground arith)
bytes_equals_iff (x ∷ xs) (y ∷ ys) =
    (λ e. ground (arith, bytes_equals_iff xs ys), λ e. ground (arith, bytes_equals_iff xs ys))

instance abbrev pub bytes_eq : Keyed Bytes
bytes_eq = record { equals = bytes_equals; equals_iff = bytes_equals_iff }

-- `.lower()` of bytes: the ASCII letters
abbrev lower_byte : ℕ → ℕ
lower_byte b = if leb 65 b && leb b 90 then b + 32 else b

unfoldable pub lower : Bytes → Bytes
lower [] = []
lower (b ∷ bs) = lower_byte b ∷ lower bs

-- `.split(",")`, for the byte that separates: never empty.
abbrev cons_first : ℕ → List Bytes → List Bytes
cons_first b [] = (b ∷ []) ∷ []
cons_first b (part ∷ parts) = (b ∷ part) ∷ parts

unfoldable pub split : ℕ → Bytes → List Bytes
split separator [] = [] ∷ []
split separator (b ∷ bs) =
    let rest = split separator bs in if nat_beq b separator then [] ∷ rest else cons_first b rest

-- The white space of Latin-1 text.
abbrev is_space : ℕ → Bool
is_space b = (leb 9 b && leb b 13) || ((leb 28 b && leb b 32) || (nat_beq b 133 || nat_beq b 160))

abbrev drop_space : Bytes → Bytes
drop_space [] = []
drop_space (b ∷ bs) = let rest = drop_space bs in if is_space b then rest else b ∷ bs

abbrev drop_space_end : Bytes → Bytes
drop_space_end [] = []
drop_space_end (b ∷ bs) = elim (drop_space_end bs) [
  | [] ↦ if is_space b then [] else b ∷ []
  | x ∷ xs ↦ b ∷ (x ∷ xs)
]

-- `.strip()` of the Latin-1 text
unfoldable pub strip : Bytes → Bytes
strip bs = drop_space_end (drop_space bs)

abbrev is_prefix : Bytes → Bytes → Bool
is_prefix [] bs = true
is_prefix (x ∷ xs) [] = false
is_prefix (x ∷ xs) (b ∷ bs) = nat_beq x b && is_prefix xs bs

-- `pattern in text`
unfoldable pub contains : Bytes → Bytes → Bool
contains pattern [] = is_prefix pattern []
contains pattern (b ∷ bs) = is_prefix pattern (b ∷ bs) || contains pattern bs

-- `str(n).encode("ascii")`: the fuel `n + 1` is more than the number of digits.
abbrev digits : ℕ → ℕ → Bytes → Bytes
digits zero n end = end
digits (suc fuel) n end =
    let rest = digits fuel (n / 10) ((48 + n % 10) ∷ end) in
    if ltb n 10 then (48 + n) ∷ end else rest

abbrev pub decimal : ℕ → Bytes
decimal n = digits (n + 1) n []

-- What `int` accepts in a header: digits, with single underscores between them.
abbrev is_digit : ℕ → Bool
is_digit b = leb 48 b && leb b 57

abbrev literal : Bool → ℕ → Bytes → Option ℕ
literal after_digit n [] = if after_digit then some n else none
literal after_digit n (b ∷ bs) =
    let digit = literal true (n * 10 + (b - 48)) bs in
    let gap = literal false n bs in
    if is_digit b then digit else if after_digit && nat_beq b 95 then gap else none

-- `int(value)`, where 0 stands for every negative number; `none` is the ValueError.
abbrev signed : Bytes → Option ℕ
signed [] = none
signed (b ∷ bs) =
    if nat_beq b 45
    then elim (literal false 0 bs) [ none ↦ none | some n ↦ some 0 ]
    else if nat_beq b 43
    then literal false 0 bs
    else literal false 0 (b ∷ bs)

abbrev is_ascii_space : ℕ → Bool
is_ascii_space b = (leb 9 b && leb b 13) || nat_beq b 32

unfoldable pub parse_int : Bytes → Option ℕ
parse_int bs = signed (strip_ascii bs)
  where
    drop : Bytes → Bytes
    drop [] = []
    drop (b ∷ bs) = let rest = drop bs in if is_ascii_space b then rest else b ∷ bs

    drop_end : Bytes → Bytes
    drop_end [] = []
    drop_end (b ∷ bs) = elim (drop_end bs) [
      | [] ↦ if is_ascii_space b then [] else b ∷ []
      | x ∷ xs ↦ b ∷ (x ∷ xs)
    ]

    strip_ascii : Bytes → Bytes
    strip_ascii bs = drop_end (drop bs)

-- Whether `.decode("utf-8")` accepts the bytes: how many continuation bytes are due, and the range of
-- the next one.
abbrev utf8_from : ℕ → ℕ → ℕ → Bytes → Bool
utf8_from due low high [] = nat_beq due 0
utf8_from (suc due) low high (b ∷ bs) = (leb low b && leb b high) && utf8_from due 128 191 bs
utf8_from zero low high (b ∷ bs) =
    (ltb b 128 && utf8_from 0 0 0 bs)
    || ((leb 194 b && (leb b 223 && utf8_from 1 128 191 bs))
        || ((nat_beq b 224 && utf8_from 2 160 191 bs)
            || ((((leb 225 b && leb b 236) || (nat_beq b 238 || nat_beq b 239))
                  && utf8_from 2 128 191 bs)
                || ((nat_beq b 237 && utf8_from 2 128 159 bs)
                    || ((nat_beq b 240 && utf8_from 3 144 191 bs)
                        || (((leb 241 b && leb b 243) && utf8_from 3 128 191 bs)
                            || (nat_beq b 244 && utf8_from 3 128 143 bs)))))))

unfoldable pub is_utf8 : Bytes → Bool
is_utf8 bs = utf8_from 0 0 0 bs
