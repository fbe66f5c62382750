-- ===== src/Shell/Run/Sessions.antt =====
-- The whole loop of the shell: it ends with the keys, and a typed line runs its command.
use zero_to_kernel.Prelude.{
  ℕ, zero, suc, ◌≡◌, refl, ◌∙◌, ap, List, [], ◌∷◌, ◌++◌, arith, length, take, All, All-map,
}
use mathlib.Core.List.{append-nil}
use zero_to_kernel.Text.{Buffer}
use zero_to_kernel.Text.Strings.{c_string}
use zero_to_kernel.Screen.{Screen}
use zero_to_kernel.Screen.Cursor.{IsValid}
use zero_to_kernel.Shell.Readline.Views.{IsPlain}
use zero_to_kernel.Shell.Readline.Session.{IsEnter, text_of, text_of_line, shell_readline-IsLine}
use zero_to_kernel.Shell.Readline.Typed.{presses-plain}
use zero_to_kernel.Shell.Dispatch.{shell_round}
use zero_to_kernel.Shell.Run.{
  Session, Turn, waits, stops, overruns, tabs, goes_on, after_round, input_max, shell_turn,
  shell_run, next_turn,
}
use zero_to_kernel.Shell.Run.Turns.{IsSession, Progress, shell_turn-Progress}

abbrev pub HasEnded : Turn → Type 0
HasEnded waits = Unit
HasEnded stops = Unit
HasEnded overruns = Unit
HasEnded tabs = Unit
HasEnded (goes_on r) = ⊥

abbrev pub Keeps : Turn → Type 0
Keeps waits = Unit
Keeps stops = Unit
Keeps overruns = Unit
Keeps tabs = Unit
Keeps (goes_on r) = IsSession r

next_turn-Keeps :
    (n : ℕ) (t : Turn) (k : Session → Turn)
    → Progress n t
    → ((r : Session) → IsSession r → Keeps (k r))
    → Keeps (next_turn t k)
unfolding next_turn
next_turn-Keeps n waits k p next = tt
next_turn-Keeps n stops k p next = tt
next_turn-Keeps n overruns k p next = tt
next_turn-Keeps n tabs k p next = tt
next_turn-Keeps n (goes_on r) k p next = next r p.0

-- After any number of turns a shell that goes on is in a well-formed state.
pub shell_run-Keeps :
    (n fuel : ℕ) (screens : ℕ → Screen) (r : Session)
    → ((i : ℕ) → IsValid (screens i))
    → IsSession r
    → Keeps (shell_run n fuel screens r)
unfolding shell_run
shell_run-Keeps zero fuel screens r valid v = v
shell_run-Keeps (suc n) fuel screens r valid v =
    next_turn-Keeps (length r.keys) _ (shell_run n fuel screens)
      (shell_turn-Progress fuel (screens n) r v (valid n))
      (λ r' v'. shell_run-Keeps n fuel screens r' valid v')

-- A printable line and Enter run the command in the line, of which 255 bytes count.
pub shell_turn_typed :
    (fuel : ℕ) (screen : Screen) (r : Session) (typed : List ℕ) (c : ℕ) (rest : List ℕ)
    → IsSession r
    → IsValid screen
    → All IsPlain typed
    → IsEnter c
    → r.keys ≡ typed ++ c ∷ rest
    → (b : Buffer) × (length b ≡ input_max)
      × (shell_turn fuel screen r ≡ after_round b (shell_round (take 255 typed) rest r.state))
unfolding shell_turn
shell_turn_typed fuel screen r typed c rest v valid plain end e =
    let hist = r.state.log.shell_history in
    let free = All-map typed (λ k (h : IsPlain k). (omega (arith, h), omega (arith, h))) plain in
    let (l, is, line, same) =
      shell_readline-IsLine fuel input_max hist v.state.lines r.input_buf typed c rest screen
        v.buffer (omega arith) valid free end in
    let (whole, _, _) = text_of_line input_max hist l line in
    let text : c_string l.buf ≡ take 255 typed =
      whole
      ∙ same
      ∙ ap text_of (presses-plain input_max hist typed [] (length hist) plain (omega arith))
      ∙ append-nil _ in
    (l.buf, line.sized, rw (e, is, text) refl)
