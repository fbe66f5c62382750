-- ===== src/Boot/Prompt.antt =====
-- The end of kernel_main: the shell runs on the table of files that fs_init has made.
use zero_to_kernel.Prelude.{ℕ, List}
use zero_to_kernel.Pic.Masks.{Chips}
use zero_to_kernel.Screen.{Screen}
use zero_to_kernel.Shell.Run.{Session, shell_start}
use zero_to_kernel.Boot.{Kernel, Answers, kernel_main}

module _ (c : Chips) where
  -- The session that kernel_main begins, with the keys that will come.
  unfoldable pub boot_session : (ℕ → ℕ) → (ℕ → ℕ) → Answers → Kernel c.State → List ℕ → Session
  boot_session isr irq a k keys = shell_start (kernel_main c isr irq a k).fs keys
