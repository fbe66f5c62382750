-- ===== src/Screen/Output/Calls.antt =====
-- Lists of calls of the terminal: what they leave on the serial port and in the colour, whatever the screen
-- shows.
use zero_to_kernel.Prelude.{
  ℕ, ◌≡◌, ◌≢◌, refl, ◌∙◌, sym, ap, subst, Option, none, some, List, [], ◌∷◌, ◌++◌, arith, All,
}
use mathlib.Core.List.{append-nil, append_assoc}
use zero_to_kernel.Screen.{
  Screen, make_color, update_cursor, terminal_setcolor, terminal_clear, terminal_writestring,
}
use zero_to_kernel.Screen.Cursor.{IsValid, controls-IsValid}
use zero_to_kernel.Screen.Output.{
  Call, set_color, clear, format, write, text_of, perform, perform_all,
}
use zero_to_kernel.Screen.Output.Log.{
  echo, echo_all, Same, to_live-Same, Sends, terminal_writestring-Sends,
}

-- A call whose text is there and has no tab.
pub record IsPlain (c : Call) : Type 0 where
  pub text : List ℕ
  pub is : text_of c ≡ some text
  pub no_tab : All (λ b. b ≢ 9) text

-- The texts of plain calls, one behind the other.
unfoldable pub text_of_all : (cs : List Call) → All IsPlain cs → List ℕ
text_of_all [] plain = []
text_of_all (c ∷ cs) plain = plain.0.text ++ text_of_all cs plain.1

-- The colour attribute that calls leave.
unfoldable pub color_after : List Call → ℕ → ℕ
color_after [] now = now
color_after (set_color fg bg ∷ cs) now = color_after cs (make_color fg bg)
color_after (clear ∷ cs) now = color_after cs now
color_after (format fmt args ∷ cs) now = color_after cs now
color_after (write bs ∷ cs) now = color_after cs now

-- The texts of calls, one behind the other; `none` where a call has none.
both_texts : Option (List ℕ) → Option (List ℕ) → Option (List ℕ)
both_texts none ys = none
both_texts (some xs) none = none
both_texts (some xs) (some ys) = some (xs ++ ys)

unfoldable pub texts : List Call → Option (List ℕ)
unfolding both_texts
texts [] = some []
texts (c ∷ cs) = both_texts (text_of c) (texts cs)

pub texts-IsPlain : (cs : List Call) (p : All IsPlain cs) → texts cs ≡ some (text_of_all cs p)
unfolding texts both_texts text_of_all
texts-IsPlain [] p = refl
texts-IsPlain (c ∷ cs) p = rw (p.0.is, texts-IsPlain cs p.1) refl

-- What a list of calls does: it ends, the cursor is on the screen, the serial port has its text, and the
-- colour is the last one set.
pub record Performs (log : List ℕ) (color : ℕ) (s : Screen) (o : Option Screen) : Type 0 where
  pub screen : Screen
  pub is : o ≡ some screen
  pub sent : screen.serial ≡ s.serial ++ log
  pub colored : screen.term_color ≡ color
  pub valid : IsValid screen

echo_all-append : (xs ys : List ℕ) → echo_all (xs ++ ys) ≡ echo_all xs ++ echo_all ys
unfolding echo_all
echo_all-append [] ys = refl
echo_all-append (x ∷ xs) ys =
    ap (λ l. echo x ++ l) (echo_all-append xs ys)
    ∙ sym (append_assoc (echo x) (echo_all xs) (echo_all ys))

-- A call that prints nothing.
quiet-Performs :
    (text : List ℕ) (s t : Screen)
    → some [] ≡ some text
    → t.serial ≡ s.serial
    → IsValid t
    → Performs (echo_all text) t.term_color s (some t)
unfolding echo_all
quiet-Performs text s t e same v =
    let empty : [] ≡ text = cc in
    record {
      screen = t;
      is = refl;
      sent = same ∙ sym (append-nil s.serial) ∙ ap (λ x. s.serial ++ echo_all x) empty;
      colored = refl;
      valid = v;
    }

Sends-Performs :
    (log : List ℕ) (s : Screen) (o : Option Screen) → Sends log s o → Performs log s.term_color s o
Sends-Performs log s o r = record {
  screen = r.screen;
  is = r.is;
  sent = r.follows.sent;
  colored = r.follows.colored;
  valid = r.valid;
}

set_color-IsValid : (fg bg : ℕ) (s : Screen) → IsValid s → IsValid (terminal_setcolor fg bg s)
unfolding terminal_setcolor
set_color-IsValid fg bg s v = omega arith

clear-Same : (s : Screen) → Same s (terminal_clear s)
unfolding terminal_clear update_cursor
clear-Same s = to_live-Same s

perform-Performs :
    (fuel : ℕ) (c : Call) (s : Screen) (p : IsPlain c)
    → IsValid s
    → Performs (echo_all p.text) (color_after (c ∷ []) s.term_color) s (perform fuel c s)
unfolding perform color_after text_of terminal_setcolor
perform-Performs fuel (set_color fg bg) s p v =
    quiet-Performs p.text s (terminal_setcolor fg bg s) p.is refl (set_color-IsValid fg bg s v)
perform-Performs fuel clear s p v =
    subst (λ c. Performs (echo_all p.text) c s (some (terminal_clear s))) (clear-Same s).1
      (quiet-Performs p.text s (terminal_clear s) p.is (clear-Same s).0
        (controls-IsValid 0 0 0 s v).2)
perform-Performs fuel (format fmt args) s p v =
    rw (p.is) (Sends-Performs _ s _ (terminal_writestring-Sends fuel p.text s p.no_tab v))
perform-Performs fuel (write bs) s p v =
    let e : p.text ≡ bs = cc in
    subst (λ t. Performs (echo_all p.text) s.term_color s (terminal_writestring fuel t s)) e
      (Sends-Performs _ s _ (terminal_writestring-Sends fuel p.text s p.no_tab v))

color_after-cons :
    (c : Call) (cs : List Call) (now : ℕ)
    → color_after (c ∷ cs) now ≡ color_after cs (color_after (c ∷ []) now)
unfolding color_after
color_after-cons (set_color fg bg) cs now = refl
color_after-cons clear cs now = refl
color_after-cons (format fmt args) cs now = refl
color_after-cons (write bs) cs now = refl

pub color_after-append :
    (xs ys : List Call) (now : ℕ) → color_after (xs ++ ys) now ≡ color_after ys (color_after xs now)
unfolding color_after
color_after-append [] ys now = refl
color_after-append (set_color fg bg ∷ xs) ys now = color_after-append xs ys (make_color fg bg)
color_after-append (clear ∷ xs) ys now = color_after-append xs ys now
color_after-append (format fmt args ∷ xs) ys now = color_after-append xs ys now
color_after-append (write bs ∷ xs) ys now = color_after-append xs ys now

-- Calls whose texts are without tabs are performed to the end with any fuel: the serial port gets their
-- texts in the order of the calls, the colour is the last one set, and the cursor is on the screen.
pub perform_all-Performs :
    (fuel : ℕ) (cs : List Call) (s : Screen) (p : All IsPlain cs)
    → IsValid s
    → Performs (echo_all (text_of_all cs p)) (color_after cs s.term_color) s (perform_all fuel cs s)
unfolding perform_all text_of_all
perform_all-Performs fuel [] s p v = unfold color_after in quiet-Performs [] s s refl refl v
perform_all-Performs fuel (c ∷ cs) s p v =
    let a = perform-Performs fuel c s p.0 v in
    let b = perform_all-Performs fuel cs a.screen p.1 a.valid in
    record {
      screen = b.screen;
      is = rw (a.is) (b.is);
      sent =
          b.sent
          ∙ ap (λ l. l ++ echo_all (text_of_all cs p.1)) a.sent
          ∙ append_assoc s.serial _ _
          ∙ ap (λ l. s.serial ++ l) (sym (echo_all-append p.0.text (text_of_all cs p.1)));
      colored =
          b.colored ∙ ap (color_after cs) a.colored ∙ sym (color_after-cons c cs s.term_color);
      valid = b.valid;
    }
