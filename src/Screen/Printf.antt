-- ===== src/Screen/Printf.antt =====
-- kernel/screen.c, terminal_printf: the bytes that it gives to terminal_putchar, in order. The
-- arguments are a list; an argument that is missing or of another kind is `none`. A negative int is
-- its word in two's complement; a null pointer given for `%s` is `null`.
use zero_to_kernel.Prelude.{
  ℕ, ◌+◌, ◌-◌, ◌*◌, ◌%◌, ◌^◌, ◌<◌, ◌≡◌, refl, ◌∙◌, ap, inl, inr, Bool, true, false, ◌&&◌, ◌||◌,
  Option, none, some, List, [], ◌∷◌, ◌++◌, ◌==◌, ltb, leb, if◌then◌else◌, length, replicate,
  length-append, length-replicate, arith, Bool-cases, bytes,
}
use mathlib.Core.Option
use mathlib.Core.List.{append-nil}
use zero_to_kernel.Text.{utoa, itoa, atoi, word}
use zero_to_kernel.Text.Numbers.{atoi-itoa}

pub data Arg : Type 0 where
  str : List ℕ → Arg
  null : Arg
  num : ℕ → Arg

-- The flags and the width between `%` and the letter.
pub record Spec : Type 0 where
  pub left_justify : Bool
  pub zero_pad : Bool
  pub width : ℕ

-- for (i = len; i < width; i++)
abbrev pub fill_up : ℕ → Spec → List ℕ → List ℕ
fill_up c spec s = replicate (spec.width - length s) c

-- The text on its place in the field: zeros or spaces in front, spaces behind.
unfoldable pub field : Bool → Spec → List ℕ → List ℕ
field zeros spec s =
    (if zeros then fill_up 48 spec s else if spec.left_justify then [] else fill_up 32 spec s)
    ++ (s ++ (if spec.left_justify then fill_up 32 spec s else []))

unfoldable pub in_field : Bool → Spec → Option (List ℕ) → Option (List ℕ)
in_field zeros spec none = none
in_field zeros spec (some s) = some (field zeros spec s)

-- What a conversion prints for an argument; the letters % and those without meaning take none.
unfoldable pub convert : ℕ → Spec → Arg → Option (List ℕ)
convert c spec (str s) = if c == b's' then some (field false spec s) else none
convert c spec null = if c == b's' then some (field false spec (bytes "(null)")) else none
convert c spec (num v) =
    if c == b'd'
    then in_field (ltb v (2 ^ 31) && spec.zero_pad) spec (itoa v 10)
    else if c == b'u'
    then in_field spec.zero_pad spec (utoa v 10)
    else if c == b'x'
    then utoa v 16
    else if c == b'c'
    then some (v % 256 ∷ [])
    else none

unfoldable pub takes_arg : ℕ → Bool
takes_arg c = c == b's' || c == b'd' || c == b'u' || c == b'x' || c == b'c'

-- A letter that takes no argument: `%%` prints one, another letter is printed behind its `%`; at the
-- end of the format the default case prints the terminator.
unfoldable pub literal : ℕ → List ℕ
literal c = if c == b'%' then b'%' ∷ [] else b'%' ∷ c ∷ []

unfoldable pub take_arg : ℕ → Spec → List Arg → Option (List ℕ × List Arg)
take_arg c spec args = if takes_arg c then with_first args else some (literal c, args)
  where
    with_first : List Arg → Option (List ℕ × List Arg)
    with_first [] = none
    with_first (a ∷ rest) = Option.map (λ out. (out, rest)) (convert c spec a)

abbrev pub no_spec : Spec
no_spec = record { left_justify = false; zero_pad = false; width = 0 }

-- Where the reading of a format stands: in text, or behind a `%` where `-`, `0` or a digit of the
-- width may follow.
pub data State : Type 0 where
  text minus_or_more zero_or_more digit_or_letter : State

is_width : ℕ → Bool
is_width c = leb 48 c && leb c 57

-- What one byte of the format prints, and how the reading goes on.
pub record Step : Type 0 where
  pub out : List ℕ
  pub state : State
  pub spec : Spec
  pub args : List Arg

converted : Option (List ℕ × List Arg) → Option Step
converted none = none
converted (some (out, args)) =
    some (record { out = out; state = text; spec = no_spec; args = args })

go_on : State → Spec → List Arg → Option Step
go_on state spec args = some (record { out = []; state = state; spec = spec; args = args })

unfoldable pub step : State → ℕ → Spec → List Arg → Option Step
unfolding converted go_on is_width
step text c spec args =
    if c == b'%'
    then go_on minus_or_more no_spec args
    else some (record { out = c ∷ []; state = text; spec = spec; args = args })
step minus_or_more c spec args =
    if c == b'-'
    then go_on zero_or_more (record spec { left_justify = true }) args
    else if c == b'0'
    then go_on digit_or_letter (record spec { zero_pad = true }) args
    else if is_width c
    then go_on digit_or_letter (record spec { width = spec.width * 10 + (c - 48) }) args
    else converted (take_arg c spec args)
step zero_or_more c spec args =
    if c == b'0'
    then go_on digit_or_letter (record spec { zero_pad = true }) args
    else if is_width c
    then go_on digit_or_letter (record spec { width = spec.width * 10 + (c - 48) }) args
    else converted (take_arg c spec args)
step digit_or_letter c spec args =
    if is_width c
    then go_on digit_or_letter (record spec { width = spec.width * 10 + (c - 48) }) args
    else converted (take_arg c spec args)

-- At the end inside a conversion the default case prints `%` and the terminator.
at_end : State → List ℕ
at_end text = []
at_end minus_or_more = literal 0
at_end zero_or_more = literal 0
at_end digit_or_letter = literal 0

and_then : Option Step → (State → Spec → List Arg → Option (List ℕ)) → Option (List ℕ)
and_then none rest = none
and_then (some s) rest = Option.map (λ out. s.out ++ out) (rest s.state s.spec s.args)

unfoldable pub printf_loop : List ℕ → State → Spec → List Arg → Option (List ℕ)
unfolding and_then at_end
printf_loop [] state spec args = some (at_end state)
printf_loop (c ∷ fmt) state spec args = and_then (step state c spec args) (printf_loop fmt)

unfoldable pub terminal_printf : List ℕ → List Arg → Option (List ℕ)
terminal_printf fmt args = printf_loop fmt text no_spec args

pad_length : (c : ℕ) (spec : Spec) (s : List ℕ) → length (fill_up c spec s) ≡ spec.width - length s
pad_length c spec s = length-replicate (spec.width - length s) c

no_field : (s : List ℕ) → field false no_spec s ≡ s
unfolding field
no_field s = let e : 0 - length s ≡ 0 = omega arith in rw (e, append-nil s) refl

length-parts : (a b c : List ℕ) → length (a ++ (b ++ c)) ≡ length a + (length b + length c)
length-parts a b c = length-append a (b ++ c) ∙ ap (λ n. length a + n) (length-append b c)

-- A conversion fills its field exactly, unless it has both the flags `-` and `0` on a number: then it
-- pads on both sides.
pub length-field :
    (zeros : Bool) (spec : Spec) (s : List ℕ)
    → length (field zeros spec s) ≡ (
        if zeros && spec.left_justify
        then length s + 2 * (spec.width - length s)
        else length s + (spec.width - length s))
unfolding field
length-field true spec s = elim (Bool-cases spec.left_justify) [
  | inl left ↦ rw left (
      length-parts (fill_up 48 spec s) s (fill_up 32 spec s)
      ∙ omega (arith, pad_length 48 spec s, pad_length 32 spec s))
  | inr right ↦
      rw right (length-parts (fill_up 48 spec s) s [] ∙ omega (arith, pad_length 48 spec s))
]
length-field false spec s = elim (Bool-cases spec.left_justify) [
  | inl left ↦ rw left (length-parts [] s (fill_up 32 spec s) ∙ omega (arith, pad_length 32 spec s))
  | inr right ↦
      rw right (length-parts (fill_up 32 spec s) s [] ∙ omega (arith, pad_length 32 spec s))
]

-- `%d` prints an int in the digits from which atoi reads it back, and what follows is printed behind.
pub printf_int :
    (v : ℕ) (args : List Arg)
    → v < word
    → (s : List ℕ) × (terminal_printf (bytes "%d") (num v ∷ args) ≡ some s) × (atoi s ≡ v)
unfolding terminal_printf printf_loop step take_arg takes_arg convert in_field
printf_int v args fits =
    let (s, got, back) = atoi-itoa v fits in
    let no_zeros : (ltb v (2 ^ 31) && false) ≡ false = ground arith in
    rw (got, no_zeros, no_field s) (s, rw (append-nil s) refl, back)
