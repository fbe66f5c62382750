-- ===== src/Shell/Run/Turns.antt =====
-- A turn of the shell: without an Enter it waits, with one it runs the command that the line names.
use zero_to_kernel.Prelude.{
  ℕ, suc, ◌+◌, ◌≤◌, ◌<◌, ◌≡◌, ◌≢◌, refl, ◌∙◌, sym, ap, subst, inl, inr, List, [], ◌∷◌, ◌++◌, ◌==◌,
  arith, Bool-cases, length, length-append, All,
}
use zero_to_kernel.Text.{Buffer}
use zero_to_kernel.Text.Strings.{c_string}
use zero_to_kernel.Fs.{Table}
use zero_to_kernel.Fs.Invariant.{IsTable}
use zero_to_kernel.Screen.{Screen}
use zero_to_kernel.Shell.Todo.{Numbered}
use zero_to_kernel.Screen.Cursor.{IsValid}
use zero_to_kernel.Shell.Readline.Views.{IsPlain, view_of}
use zero_to_kernel.Shell.Readline.Session.{
  presses, IsEnter, text_of, text_of_line, shell_readline-IsLine, shell_readline_waits,
}
use zero_to_kernel.Shell.Dispatch.{has_tab, After, shell_round}
use zero_to_kernel.Shell.Dispatch.Outcomes.{IsState, Safe}
use zero_to_kernel.Shell.Dispatch.Safety.{shell_round-Safe}
use zero_to_kernel.Shell.Dispatch.Keys.{Within, shell_round-Within}
use zero_to_kernel.Shell.Run.{
  Session, Turn, waits, stops, overruns, tabs, goes_on, after_round, input_max, shell_start,
  shell_turn,
}

-- No key is Enter.
abbrev pub NoEnter : List ℕ → Type 0
NoEnter keys = All (λ k. (k ≢ 10) × (k ≢ 13)) keys

-- The keys up to the first Enter.
pub data Entered : List ℕ → Type 0 where
  no_enter : (keys : List ℕ) → NoEnter keys → Entered keys
  enter_at :
      (typing : List ℕ) (c : ℕ) (rest : List ℕ)
      → NoEnter typing
      → IsEnter c
      → Entered (typing ++ c ∷ rest)

Entered-cons : (k : ℕ) (keys : List ℕ) → (k ≢ 10) × (k ≢ 13) → Entered keys → Entered (k ∷ keys)
Entered-cons k _ h (no_enter keys typing) = no_enter (k ∷ keys) (h, typing)
Entered-cons k _ h (enter_at typing c rest free end) = enter_at (k ∷ typing) c rest (h, free) end

pub entered : (keys : List ℕ) → Entered keys
entered [] = no_enter [] tt
entered (k ∷ keys) = elim (Bool-cases (k == 10)) [
  | inl e ↦ enter_at [] k keys tt (inl (ground (arith, e)))
  | inr e ↦ elim (Bool-cases (k == 13)) [
    | inl e₁ ↦ enter_at [] k keys tt (inr (ground (arith, e₁)))
    | inr e₁ ↦ Entered-cons k keys (ground (arith, e), ground (arith, e₁)) (entered keys)
  ]
]

-- The shell between two turns.
pub record IsSession (r : Session) : Type 0 where
  pub state : IsState r.state
  pub buffer : length r.input_buf ≡ input_max

-- The shell starts in such a state.
pub shell_start-IsSession :
    (fs : Table) (keys : List ℕ) → IsTable fs → IsSession (shell_start fs keys)
unfolding shell_start Numbered has_tab
shell_start-IsSession fs keys v = record {
  state = record {
    files = v;
    here = omega arith;
    shown = refl;
    tasks = omega arith;
    lines = omega arith;
  };
  buffer = refl;
}

-- What a turn does with the keys it finds.
pub data Turns (r : Session) : Turn → Type 0 where
  waiting : NoEnter r.keys → Turns r waits
  entering :
      (typing : List ℕ) (c : ℕ) (rest : List ℕ) (b : Buffer) (line : List ℕ)
      → r.keys ≡ typing ++ c ∷ rest
      → NoEnter typing
      → IsEnter c
      → length b ≡ input_max
      → All IsPlain line
      → line
        ≡ text_of (
            presses input_max r.state.log.shell_history typing
              (view_of [] [] (length r.state.log.shell_history)))
      → Turns r (after_round b (shell_round line rest r.state))

turn_at :
    (fuel : ℕ) (screen : Screen) (r : Session) (keys : List ℕ)
    → IsSession r
    → IsValid screen
    → Entered keys
    → r.keys ≡ keys
    → Turns r (shell_turn fuel screen r)
unfolding shell_turn
turn_at fuel screen r _ v valid (no_enter keys typing) e =
    let hist = r.state.log.shell_history in
    let none_yet =
      shell_readline_waits fuel input_max hist v.state.lines r.input_buf keys screen typing in
    let turn : shell_turn fuel screen r ≡ waits = rw (e, none_yet) refl in
    subst (Turns r) (sym turn) (waiting (subst NoEnter (sym e) typing))
turn_at fuel screen r _ v valid (enter_at typing c rest free end) e =
    let hist = r.state.log.shell_history in
    let (l, is, line, same) =
      shell_readline-IsLine fuel input_max hist v.state.lines r.input_buf typing c rest screen
        v.buffer (omega arith) valid free end in
    let (whole, _, plain) = text_of_line input_max hist l line in
    let turn : shell_turn fuel screen r
        ≡ after_round l.buf (shell_round (c_string l.buf) rest r.state) =
      rw (e, is) refl in
    subst (Turns r) (sym turn)
      (entering typing c rest l.buf (c_string l.buf) e free end line.sized plain (whole ∙ same))

-- In a turn a well-formed session, with the cursor on the screen, waits if no Enter is among the keys;
-- otherwise it runs the command in the printable line that the line editor makes of the keys in front of the
-- first Enter, with the keys behind, and ends as that command does.
pub shell_turn-Turns :
    (fuel : ℕ) (screen : Screen) (r : Session)
    → IsSession r
    → IsValid screen
    → Turns r (shell_turn fuel screen r)
shell_turn-Turns fuel screen r v valid = turn_at fuel screen r r.keys v valid (entered r.keys) refl

-- A turn that goes on: the shell is in a state as before, and the keys are fewer.
abbrev pub Progress : ℕ → Turn → Type 0
Progress n waits = Unit
Progress n stops = Unit
Progress n overruns = Unit
Progress n tabs = Unit
Progress n (goes_on r) = IsSession r × (length r.keys < n)

after_round-Progress :
    (n : ℕ) (b : Buffer) (a : After)
    → length b ≡ input_max
    → Safe a
    → Within n a
    → Progress (suc n) (after_round b a)
unfolding after_round
after_round-Progress n b After.waits sized safe within = tt
after_round-Progress n b After.stops sized safe within = tt
after_round-Progress n b After.overruns sized safe within = tt
after_round-Progress n b After.tabs sized safe within = tt
after_round-Progress n b (After.returns s keys) sized safe within =
    (record { state = safe; buffer = sized }, omega (arith, within))

Progress-le : (n m : ℕ) (t : Turn) → n ≤ m → Progress n t → Progress m t
Progress-le n m waits h p = tt
Progress-le n m stops h p = tt
Progress-le n m overruns h p = tt
Progress-le n m tabs h p = tt
Progress-le n m (goes_on r) h p = (p.0, omega (arith, h, p.1))

Turns-Progress : (r : Session) (t : Turn) → IsSession r → Turns r t → Progress (length r.keys) t
Turns-Progress r _ v (waiting _) = tt
Turns-Progress r _ v (entering typing c rest b line e free end sized plain same) =
    let size : length r.keys ≡ length typing + suc (length rest) =
      ap length e ∙ length-append typing (c ∷ rest) in
    Progress-le (suc (length rest)) _ _ (omega (arith, size)) (
      after_round-Progress (length rest) b _ sized
        (shell_round-Safe line rest r.state v.state plain)
        (shell_round-Within line rest r.state v.state.files))

-- A turn keeps the shell's state, and takes at least one key if another turn follows.
pub shell_turn-Progress :
    (fuel : ℕ) (screen : Screen) (r : Session)
    → IsSession r
    → IsValid screen
    → Progress (length r.keys) (shell_turn fuel screen r)
shell_turn-Progress fuel screen r v valid =
    Turns-Progress r _ v (shell_turn-Turns fuel screen r v valid)
