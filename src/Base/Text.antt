-- ===== src/Base/Text.antt =====
-- What the firmware uses of the C library on text: `strlen`, `strncmp`, `strstr`, `strcmp`, `memchr`,
-- `%u`, `%d` and `strtol`.
use Prim.Native.Nat.{ℕ, zero, suc, ◌+◌, ◌-◌, ◌*◌, ◌/◌, ◌%◌}
use mathlib.Core.Bool.{Bool, true, false, ◌&&◌, ◌||◌}
use mathlib.Core.Option.{Option, none, some}
use mathlib.Core.List.{[], ◌∷◌}
use pico_deck_eddiscovery.Base.Int.{ℤ, pos, negsuc}
use pico_deck_eddiscovery.Base.Tests.{ltb, leb, ◌==◌, if◌then◌else◌}
use pico_deck_eddiscovery.Base.Lists.{length, take, Bytes, equal}

-- The C string at the start of a buffer: up to its first NUL.
unfoldable pub c_string : Bytes → Bytes
c_string [] = []
c_string (b ∷ bs) = if b == 0 then [] else b ∷ c_string bs

-- `strncmp(s, prefix, strlen(prefix)) == 0`
unfoldable pub starts_with : Bytes → Bytes → Bool
unfolding equal
starts_with prefix s = equal (take (length prefix) s) prefix

-- `strstr`: the index of the first occurrence.
unfoldable pub strstr : Bytes → Bytes → Option ℕ
unfolding starts_with
strstr [] pattern = if starts_with pattern [] then some 0 else none
strstr (b ∷ bs) pattern =
    let rest = strstr bs pattern in
    if starts_with pattern (b ∷ bs)
    then some 0
    else elim rest [ none ↦ none | some i ↦ some (suc i) ]

-- `%u`, with fuel for the digits left.
unfoldable pub decimal_onto : ℕ → ℕ → Bytes → Bytes
decimal_onto zero n out = out
decimal_onto (suc fuel) n out =
    let rest = decimal_onto fuel (n / 10) ((48 + n % 10) ∷ out) in
    if ltb n 10 then (48 + n) ∷ out else rest

-- `%u` of an `unsigned`, which has ten digits at most.
unfoldable pub decimal : ℕ → Bytes
unfolding decimal_onto
decimal n = decimal_onto 10 n []

-- `%d`
unfoldable pub decimal_int : ℤ → Bytes
unfolding decimal
decimal_int (pos n) = decimal n
decimal_int (negsuc n) = b'-' ∷ decimal (suc n)

-- `strcmp` on C strings, as a test and as the sign of its result: is the first smaller?
unfoldable pub before : Bytes → Bytes → Bool
before [] [] = false
before [] (y ∷ ys) = true
before (x ∷ xs) [] = false
before (x ∷ xs) (y ∷ ys) = ltb x y || (x == y && before xs ys)

-- `memchr`: the index of the first such byte.
unfoldable pub memchr : Bytes → ℕ → Option ℕ
memchr [] c = none
memchr (b ∷ bs) c =
    let rest = memchr bs c in
    if b == c then some 0 else elim rest [ none ↦ none | some i ↦ some (suc i) ]

abbrev is_digit : ℕ → Bool
is_digit c = leb 48 c && leb c 57

-- `isspace` in the C locale.
abbrev is_space : ℕ → Bool
is_space c = c == 32 || (leb 9 c && leb c 13)

-- The digits in front: their value, and how many there are.
digits_from : ℕ → ℕ → Bytes → ℕ × ℕ
digits_from n k [] = (n, k)
digits_from n k (c ∷ cs) =
    let rest = digits_from (n * 10 + (c - 48)) (suc k) cs in if is_digit c then rest else (n, k)

-- A 32-bit `long`: out of range, the nearest value.
abbrev clamp_pos : ℕ → ℤ
clamp_pos n = if ltb 2147483647 n then pos 2147483647 else pos n

abbrev clamp_neg : ℕ → ℤ
clamp_neg n =
    if n == 0 then pos 0 else if ltb 2147483648 n then negsuc 2147483647 else negsuc (n - 1)

-- `strtol(s, &end, 10)` behind the white space; `none` where it converts nothing.
unsigned_part : Bytes → Option ℕ
unfolding digits_from
unsigned_part s = let (n, k) = digits_from 0 0 s in if k == 0 then none else some n

unfoldable pub strtol : Bytes → Option ℤ
unfolding unsigned_part
strtol [] = none
strtol (c ∷ cs) =
    let rest = strtol cs in
    if is_space c
    then rest
    else if c == b'-'
    then elim (unsigned_part cs) [ none ↦ none | some n ↦ some (clamp_neg n) ]
    else if c == b'+'
    then elim (unsigned_part cs) [ none ↦ none | some n ↦ some (clamp_pos n) ]
    else elim (unsigned_part (c ∷ cs)) [ none ↦ none | some n ↦ some (clamp_pos n) ]

-- `atoi`, which is `(int)strtol(s, NULL, 10)`.
unfoldable pub atoi : Bytes → ℤ
unfolding strtol
atoi s = elim (strtol s) [ none ↦ pos 0 | some n ↦ n ]
