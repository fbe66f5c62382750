-- ===== src/Shell/Readline/Display.antt =====
-- What the line editor shows: printing a text without tabs succeeds, and the cursor stays on the screen.
use zero_to_kernel.Prelude.{
  ℕ, ◌≡◌, ◌≢◌, refl, inl, inr, Bool, true, false, Option, some, List, [], ◌∷◌, ◌==◌, arith, All,
  Bool-cases, if◌then◌else◌,
}
use zero_to_kernel.Screen.{Screen, terminal_putchar, terminal_writestring}
use zero_to_kernel.Screen.Cursor.{IsValid, terminal_putchar-IsValid, controls-IsValid}
use zero_to_kernel.Shell.Readline.{set_cell}

-- A successful call that leaves the screen valid.
abbrev pub Shows : Option Screen → Type 0
Shows o = (s : Screen) × (o ≡ some s) × IsValid s

some_of : (b : Bool) (x y : Screen) → (s : Screen) × ((if b then some x else some y) ≡ some s)
some_of true x y = (x, refl)
some_of false x y = (y, refl)

putchar_some :
    (fuel c : ℕ) (s : Screen) → c ≢ 9 → (s' : Screen) × (terminal_putchar fuel c s ≡ some s')
unfolding terminal_putchar
putchar_some fuel c s plain =
    let no_tab : (c == 9) ≡ false = ground (arith, plain) in
    rw no_tab (elim (Bool-cases (c == 10)) [
      | inl e ↦ rw e (_, refl)
      | inr e ↦ rw e (elim (Bool-cases (c == 13)) [
        | inl e₁ ↦ rw e₁ (_, refl)
        | inr e₁ ↦ rw e₁ (some_of (c == 8) _ _)
      ])
    ])

pub putchar-Shows :
    (fuel c : ℕ) (s : Screen) → c ≢ 9 → IsValid s → Shows (terminal_putchar fuel c s)
putchar-Shows fuel c s plain v =
    let (s', e) = putchar_some fuel c s plain in (s', e, terminal_putchar-IsValid fuel c s s' v e)

pub writestring-Shows :
    (fuel : ℕ) (cs : List ℕ) (s : Screen)
    → All (λ c. c ≢ 9) cs
    → IsValid s
    → Shows (terminal_writestring fuel cs s)
unfolding terminal_writestring
writestring-Shows fuel [] s plain v = (s, refl, v)
writestring-Shows fuel (c ∷ cs) s plain v =
    let (s₁, first, v₁) = putchar-Shows fuel c s plain.0 v in
    rw first (writestring-Shows fuel cs s₁ plain.1 v₁)

pub set_cell-IsValid : (p : ℕ × ℕ) (s : Screen) → IsValid s → IsValid (set_cell p s)
set_cell-IsValid p s v = (controls-IsValid 0 p.0 p.1 s v).3
