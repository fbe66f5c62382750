-- ===== src/Text.antt =====
-- kernel/memory.c, the memory and string functions and the numbers. A buffer is the list of its
-- bytes from the pointer on; a C string is a buffer up to its first 0. A write behind the end of
-- the list is dropped, and the theorems ask for room. An unsigned int is below 2 ^ 32, and an int
-- is its word in two's complement.
pub mod Strings
pub mod Numbers
mod Tests
use zero_to_kernel.Prelude.{
  ℕ, zero, suc, ◌+◌, ◌-◌, ◌*◌, ◌/◌, ◌%◌, ◌^◌, Bool, true, false, ◌&&◌, ◌||◌, Option, none, some,
  List, [], ◌∷◌, ◌++◌, ◌==◌, ltb, leb, if◌then◌else◌,
}
use mathlib.Core.Option

abbrev pub Buffer : Type 0
Buffer = List ℕ

abbrev pub word : ℕ
word = 2 ^ 32

unfoldable pub memset : Buffer → ℕ → ℕ → Buffer
memset dest val zero = dest
memset [] val (suc n) = []
memset (d ∷ dest) val (suc n) = val % 256 ∷ memset dest val n

unfoldable pub memcpy : Buffer → Buffer → ℕ → Buffer
memcpy dest src zero = dest
memcpy [] src (suc n) = []
memcpy (d ∷ dest) [] (suc n) = d ∷ dest
memcpy (d ∷ dest) (s ∷ src) (suc n) = s ∷ memcpy dest src n

-- The two bytes whose difference is returned; two equal numbers for 0.
unfoldable pub memcmp : Buffer → Buffer → ℕ → ℕ × ℕ
memcmp (p ∷ a) (q ∷ b) (suc n) = if p == q then memcmp a b n else (p, q)
memcmp a b n = (0, 0)

unfoldable pub strlen : Buffer → ℕ
strlen [] = 0
strlen (c ∷ s) = if c == 0 then 0 else suc (strlen s)

unfoldable pub strcmp : Buffer → Buffer → ℕ × ℕ
strcmp [] [] = (0, 0)
strcmp [] (q ∷ b) = (0, q)
strcmp (p ∷ a) [] = (p, 0)
strcmp (p ∷ a) (q ∷ b) =
    let rest = strcmp a b in if p == 0 then (p, q) else if p == q then rest else (p, q)

unfoldable pub strncmp : Buffer → Buffer → ℕ → ℕ × ℕ
strncmp a b zero = (0, 0)
strncmp [] [] (suc n) = (0, 0)
strncmp [] (q ∷ b) (suc n) = (0, q)
strncmp (p ∷ a) [] (suc n) = (p, 0)
strncmp (p ∷ a) (q ∷ b) (suc n) =
    let rest = strncmp a b n in if p == 0 then (p, q) else if p == q then rest else (p, q)

unfoldable pub strcpy : Buffer → Buffer → Buffer
strcpy [] src = []
strcpy (d ∷ dest) [] = 0 ∷ dest
strcpy (d ∷ dest) (c ∷ src) = let rest = strcpy dest src in if c == 0 then 0 ∷ dest else c ∷ rest

-- The second loop of strncpy.
unfoldable pub pad : Buffer → ℕ → Buffer
pad dest zero = dest
pad [] (suc n) = []
pad (d ∷ dest) (suc n) = 0 ∷ pad dest n

unfoldable pub strncpy : Buffer → Buffer → ℕ → Buffer
strncpy dest src zero = dest
strncpy dest [] (suc n) = pad dest (suc n)
strncpy [] (c ∷ src) (suc n) = []
strncpy (d ∷ dest) (c ∷ src) (suc n) =
    let rest = strncpy dest src n in if c == 0 then pad (d ∷ dest) (suc n) else c ∷ rest

-- The index of the first occurrence.
unfoldable pub strchr : Buffer → ℕ → Option ℕ
strchr [] c = none
strchr (s ∷ str) c =
    let rest = Option.map suc (strchr str c) in
    if s == 0 then none else if s == c then some 0 else rest

unfoldable pub strcat : Buffer → Buffer → Buffer
strcat [] src = []
strcat (d ∷ dest) src =
    let rest = strcat dest src in if d == 0 then strcpy (d ∷ dest) src else d ∷ rest

-- What the second loop of strncat writes at the end of dest.
unfoldable pub append_n : Buffer → Buffer → ℕ → Buffer
append_n [] src n = []
append_n (d ∷ dest) src zero = 0 ∷ dest
append_n (d ∷ dest) [] (suc n) = 0 ∷ dest
append_n (d ∷ dest) (c ∷ src) (suc n) =
    let rest = append_n dest src n in if c == 0 then 0 ∷ dest else c ∷ rest

unfoldable pub strncat : Buffer → Buffer → ℕ → Buffer
strncat [] src n = []
strncat (d ∷ dest) src n =
    let rest = strncat dest src n in if d == 0 then append_n (d ∷ dest) src n else d ∷ rest

unfoldable pub later : Option ℕ → Option ℕ → Option ℕ
later none first = first
later (some i) first = some (suc i)

-- The index of the last occurrence; the terminator counts.
unfoldable pub strrchr : Buffer → ℕ → Option ℕ
strrchr [] c = if c == 0 then some 0 else none
strrchr (s ∷ str) c =
    let hit = if s == c then some 0 else none in
    let rest = later (strrchr str c) hit in if s == 0 then hit else rest

-- '0' + rem or 'a' + rem - 10
unfoldable pub digit : ℕ → ℕ
digit rem = if ltb rem 10 then 48 + rem else 97 + rem - 10

-- The digits, the lowest first into tmp and from there backwards into buf; `none` would be a value
-- that has more digits than the fuel.
unfoldable pub digits_loop : ℕ → ℕ → ℕ → List ℕ → Option (List ℕ)
digits_loop zero base value out = none
digits_loop (suc k) base value out =
    let rest = digits_loop k base (value / base) (digit (value % base) ∷ out) in
    if value == 0 then some out else rest

-- A word has at most 32 digits.
abbrev pub digits_fuel : ℕ
digits_fuel = 33

unfoldable pub utoa : ℕ → ℕ → Option (List ℕ)
utoa value base = if value == 0 then some (48 ∷ []) else digits_loop digits_fuel base value []

unfoldable pub is_negative : ℕ → Bool
is_negative value = leb (2 ^ 31) value

unfoldable pub itoa : ℕ → ℕ → Option (List ℕ)
itoa value base =
    let negative = is_negative value && base == 10 in
    let uval = if negative then (word - value) % word else value in
    if uval == 0
    then some (48 ∷ [])
    else Option.map (λ ds. if negative then 45 ∷ ds else ds) (digits_loop digits_fuel base uval [])

unfoldable pub is_digit : ℕ → Bool
is_digit c = leb 48 c && leb c 57

unfoldable pub atoi_loop : ℕ → Buffer → ℕ
atoi_loop res [] = res
atoi_loop res (c ∷ str) =
    let rest = atoi_loop ((res * 10 + c + word - 48) % word) str in if is_digit c then rest else res

unfoldable pub atoi : Buffer → ℕ
atoi [] = 0
atoi (c ∷ str) =
    if c == 45
    then (word - atoi_loop 0 str) % word
    else if c == 43
    then atoi_loop 0 str
    else atoi_loop 0 (c ∷ str)

unfoldable pub srand : ℕ → ℕ
srand seed = seed % word

-- The number and the new rand_seed.
unfoldable pub rand : ℕ → ℕ × ℕ
rand rand_seed = let next = (rand_seed * 1103515245 + 12345) % word in (next / 65536 % 32768, next)
