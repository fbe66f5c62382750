-- ===== src/Devices/Waits.antt =====
-- mouse_wait of kernel/mouse.c: the reads of the status port 0x64 until the controller is ready.
use zero_to_kernel.Prelude.{
  ℕ, zero, suc, ◌-◌, ◌/◌, ◌%◌, ◌≤◌, ◌<◌, ◌≡◌, inl, inr, Bool, true, if◌then◌else◌, ◌==◌, arith,
  Bool-cases,
}

abbrev pub mouse_timeout : ℕ
mouse_timeout = 100000

-- Type 0 waits for a byte that can be read, the others for room for a byte.
unfoldable pub is_ready : ℕ → ℕ → Bool
is_ready kind status = if kind == 0 then status % 2 == 1 else status / 2 % 2 == 0

-- How often the port is read, where `status i` is what read number i gives.
unfoldable pub wait_loop : ℕ → ℕ → (ℕ → ℕ) → ℕ
wait_loop kind zero status = 0
wait_loop kind (suc timeout) status =
    let rest = wait_loop kind timeout (λ i. status (suc i)) in
    if is_ready kind (status 0) then 1 else suc rest

unfoldable pub mouse_wait : ℕ → (ℕ → ℕ) → ℕ
mouse_wait kind status = wait_loop kind mouse_timeout status

-- A wait of `n` reads under a time limit: it keeps the limit, it reads at least once if it may, and if it
-- ends before the limit, its last read found the controller ready.
pub record Waits (kind timeout : ℕ) (status : ℕ → ℕ) (n : ℕ) : Type 0 where
  pub bounded : n ≤ timeout
  pub reads : 0 < timeout → 0 < n
  pub ready : n < timeout → is_ready kind (status (n - 1)) ≡ true

later :
    (kind timeout : ℕ) (status : ℕ → ℕ) (n : ℕ)
    → Waits kind timeout (λ i. status (suc i)) n
    → Waits kind (suc timeout) status (suc n)
later kind timeout status zero w = record {
  bounded = omega (arith, w.bounded);
  reads = omega arith;
  ready = λ early. absurd (omega (arith, early, w.reads));
}
later kind timeout status (suc n) w = record {
  bounded = omega (arith, w.bounded);
  reads = omega arith;
  ready = λ early.
      let e : suc (suc n) - 1 ≡ suc (suc n - 1) = omega arith in
      rw e (w.ready (omega (arith, early)));
}

wait_loop-Waits :
    (kind timeout : ℕ) (status : ℕ → ℕ) → Waits kind timeout status (wait_loop kind timeout status)
unfolding wait_loop
wait_loop-Waits kind zero status = record {
  bounded = omega arith;
  reads = omega arith;
  ready = λ early. absurd (omega (arith, early));
}
wait_loop-Waits kind (suc timeout) status = elim (Bool-cases (is_ready kind (status 0))) [
  | inl e ↦ rw e (record { bounded = omega arith; reads = omega arith; ready = λ early. e })
  | inr e ↦ rw e (later kind timeout status _ (wait_loop-Waits kind timeout (λ i. status (suc i))))
]

-- A wait ends within its limit, and earlier only because the controller is ready.
pub mouse_wait-Waits :
    (kind : ℕ) (status : ℕ → ℕ) → Waits kind mouse_timeout status (mouse_wait kind status)
unfolding mouse_wait
mouse_wait-Waits kind status = wait_loop-Waits kind mouse_timeout status
