-- ===== src/Shell/Lines/Files.antt =====
-- What top and btm print of a file in the table, from the name and the count in the argument.
use zero_to_kernel.Prelude.{◌≤◌, ◌<◌, length, All}
use zero_to_kernel.Fs.{Text}

-- A name that fits into file[32], without spaces and control characters.
pub record IsName (name : Text) : Type 0 where
  pub plain : All (λ c. 32 < c) name
  pub there : 0 < length name
  pub fits : length name ≤ 31
