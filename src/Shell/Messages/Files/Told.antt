-- ===== src/Shell/Messages/Files/Told.antt =====
-- What a file command of kernel/shell.c prints is what it has done, or why it has done nothing.
use zero_to_kernel.Prelude.{ℕ, ◌≡◌, Option, none, some, List}
use zero_to_kernel.Fs.{Text, Table}
use zero_to_kernel.Screen.Output.{Call}
use zero_to_kernel.Shell.{resolve_path}
use zero_to_kernel.Shell.Dispatch.{Command, State, After, effect_of}
use zero_to_kernel.Shell.Messages.Files.Tells.{Tells}

-- The commands that take one name.
pub data TakesName : Command → Type 0 where
  new : TakesName Command.new
  see : TakesName Command.see
  del : TakesName Command.del
  look : TakesName Command.look
  mkd : TakesName Command.mkd
  deld : TakesName Command.deld

-- The command, run to the outcome `a`, returns, and what it has printed is true of the tables before and
-- behind it.
pub record Told (c : Command) (arg : Text) (keys : List ℕ) (s : State) (a : After) (cs : List Call)
    : Type 0 where
  pub fs : Table
  pub returns : a ≡ After.returns (record s { fs = fs }) keys
  pub tells : Tells (resolve_path s.current_dir arg) s.fs fs c cs

abbrev ToldIf : Command → Text → List ℕ → State → Option (List Call) → Type 0
ToldIf c arg keys s none = Unit
ToldIf c arg keys s (some cs) = Told c arg keys s (effect_of c arg keys s) cs
