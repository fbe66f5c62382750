-- ===== src/Shell/Readline/Views.antt =====
-- A line with a cursor: the text in front of the cursor, the text behind it, and the place in the
-- history; and when the state of the line editor is such a line.
use zero_to_kernel.Prelude.{
  ℕ, zero, suc, ◌+◌, ◌-◌, ◌≤◌, ◌<◌, ◌≡◌, ◌≢◌, refl, sym, subst, Option, some, List, [], ◌∷◌, ◌++◌,
  ltb, if◌then◌else◌, arith, length, take, drop, get_or, All, All-map, length-take, length-drop,
}
use zero_to_kernel.Text.{Buffer}
use zero_to_kernel.Screen.Cursor.{IsValid}
use zero_to_kernel.Shell.Readline.{
  Line, stretch, Key, enter_key, erase_key, left_key, right_key, up_key, down_key, other_key,
  char_key,
}

-- A printable character.
abbrev pub IsPlain : ℕ → Type 0
IsPlain c = (32 ≤ c) × (c < 127)

pub record View : Type 0 where
  pub before : List ℕ
  pub after : List ℕ
  pub place : ℕ

abbrev pub view_of : List ℕ → List ℕ → ℕ → View
view_of b a i = record { before = b; after = a; place = i }

-- What the editor is to do with a key.
unfoldable pub press : ℕ → List Buffer → Key → View → View
press len hist enter_key v = view_of (v.before ++ v.after) [] v.place
press len hist erase_key v = view_of (take (length v.before - 1) v.before) v.after v.place
press len hist left_key v =
    view_of (take (length v.before - 1) v.before) (drop (length v.before - 1) v.before ++ v.after)
      v.place
press len hist right_key v = view_of (v.before ++ take 1 v.after) (drop 1 v.after) v.place
press len hist up_key v =
    if ltb 0 v.place then view_of (get_or hist (v.place - 1) []) [] (v.place - 1) else v
press len hist down_key v =
    if ltb v.place (length hist) then view_of (get_or hist (v.place + 1) []) [] (v.place + 1) else v
press len hist (char_key c) v =
    if ltb (length v.before + length v.after) (len - 1)
    then view_of (v.before ++ c ∷ []) v.after v.place
    else v
press len hist other_key v = v

unfoldable pub view : Line → View
view l = view_of (take l.cursor_pos l.buf) (stretch l.cursor_pos l.line_len l.buf) l.history_idx

-- Every line of the history is printable and fits into the buffer.
abbrev pub IsHistory : ℕ → List Buffer → Type 0
IsHistory len hist = All (All IsPlain) hist × All (λ h. length h < len) hist

pub record IsLine (len : ℕ) (hist : List Buffer) (l : Line) : Type 0 where
  pub sized : length l.buf ≡ len
  pub ended : l.line_len < len
  pub inside : l.cursor_pos ≤ l.line_len
  pub closed : get_or l.buf l.line_len 0 ≡ 0
  pub placed : l.history_idx ≤ length hist
  pub plain_before : All IsPlain (view l).before
  pub plain_after : All IsPlain (view l).after
  pub shown : IsValid l.screen

abbrev pub Edits : ℕ → List Buffer → Option Line → View → Type 0
Edits len hist o v = (l : Line) × (o ≡ some l) × IsLine len hist l × (view l ≡ v)

pub no_tab : (cs : List ℕ) → All IsPlain cs → All (λ c. c ≢ 9) cs
no_tab cs plain = All-map cs (λ c (h : IsPlain c). omega (arith, h)) plain

pub no_nul : (cs : List ℕ) → All IsPlain cs → All (λ c. c ≢ 0) cs
no_nul cs plain = All-map cs (λ c (h : IsPlain c). omega (arith, h)) plain

-- A line whose view is the one wanted, and whose wanted view is printable.
pub edits :
    (len : ℕ) (hist : List Buffer) (o : Option Line) (l : Line) (v : View)
    → o ≡ some l
    → view l ≡ v
    → length l.buf ≡ len
    → l.line_len < len
    → l.cursor_pos ≤ l.line_len
    → get_or l.buf l.line_len 0 ≡ 0
    → l.history_idx ≤ length hist
    → All IsPlain v.before
    → All IsPlain v.after
    → IsValid l.screen
    → Edits len hist o v
edits len hist o l v e same sized ended inside closed placed before after shown = (
  l,
  e,
  record {
    sized = sized;
    ended = ended;
    inside = inside;
    closed = closed;
    placed = placed;
    plain_before = subst (λ w. All IsPlain w.before) (sym same) before;
    plain_after = subst (λ w. All IsPlain w.after) (sym same) after;
    shown = shown;
  },
  same,
)

pub length-before :
    (l : Line) (len : ℕ) (hist : List Buffer)
    → IsLine len hist l
    → length (view l).before ≡ l.cursor_pos
unfolding view
length-before l len hist v =
    omega (arith, length-take l.cursor_pos l.buf, v.sized, v.ended, v.inside)

pub length-after :
    (l : Line) (len : ℕ) (hist : List Buffer)
    → IsLine len hist l
    → length (view l).after ≡ l.line_len - l.cursor_pos
unfolding view stretch
length-after l len hist v = omega (
  arith,
  length-take (l.line_len - l.cursor_pos) (drop l.cursor_pos l.buf),
  length-drop l.cursor_pos l.buf,
  v.sized,
  v.ended,
  v.inside,
)

pub stay :
    (len : ℕ) (hist : List Buffer) (l : Line) (v : View)
    → IsLine len hist l
    → view l ≡ v
    → Edits len hist (some l) v
stay len hist l v valid same = (l, refl, valid, same)

pub view_eq :
    {b b' a a' : List ℕ} {i i' : ℕ} → b ≡ b' → a ≡ a' → i ≡ i' → view_of b a i ≡ view_of b' a' i'
view_eq hb ha hi = cc

pub end_pos : (p n : ℕ) → p ≤ n → (if ltb p n then n else p) ≡ n
end_pos p n h = ground arith

pub get_or_end : (xs : List Buffer) (i : ℕ) → length xs ≤ i → get_or xs i [] ≡ []
get_or_end [] i h = refl
get_or_end (x ∷ xs) zero h = absurd (omega arith)
get_or_end (x ∷ xs) (suc i) h = get_or_end xs i (omega arith)

pub length-get_or :
    (len : ℕ) (xs : List Buffer) (i : ℕ)
    → All (λ h. length h < len) xs
    → 0 < len
    → length (get_or xs i []) < len
length-get_or len [] i all pos = pos
length-get_or len (x ∷ xs) zero all pos = all.0
length-get_or len (x ∷ xs) (suc i) all pos = length-get_or len xs i all.1 pos
