-- ===== src/Importer/Supervisor/Runs.antt =====
-- No watch loop outlives the supervisor's wait for it, and an ended context stops the supervisor.
use hubabox.Base.{
  ℕ, ◌+◌, ◌≤◌, ◌<◌, Bool, true, false, ◌≡◌, refl, sym, subst, ◌⊎◌, inl, inr, Result, ok, Option,
  none, some, [], arith, Bool-cases, Result-cases,
}
use hubabox.Text.{Text, text_eq, trim_space}
use hubabox.Text.Trim.{trim_space-IsTrimmed, IsTrimmed}
use hubabox.Importer.{validate_paths}
use hubabox.Importer.Supervisor.{
  Phase, looking, idle, watching, cooling, stopped, closing, State, cancel, look, ◌⟶◌, finish,
  leave, read, idle_done, idle_restart, watching_done, watching_restart, watching_ended,
  closed_stop, closed_again, cooling_done, cooling_over, loop_returns, Run, here, next,
}

-- A phase in which the supervisor has, or waits for, a loop that it has started.
abbrev has_loop : Phase → Bool
has_loop watching = true
has_loop (closing again) = true
has_loop looking = false
has_loop idle = false
has_loop cooling = false
has_loop stopped = false

module _ (cwd : Result Text) (files_dir : Text) where
  -- What holds of a live loop: the supervisor waits for it, and its folder is one that
  -- `ValidatePaths` accepts.
  abbrev LoopIsSound : Phase → Option (Text × Bool) → Type 0
  LoopIsSound p none = Unit
  LoopIsSound p (some (path, cancelled)) =
      (has_loop p ≡ true) × (validate_paths cwd path files_dir ≡ ok tt) × IsTrimmed path

  abbrev pub IsSound : State → Type 0
  IsSound s = LoopIsSound s.phase s.loop

  look-IsSound : (path : Text) → IsSound (look cwd files_dir path)
  unfolding look
  look-IsSound path = elim (Bool-cases (text_eq (trim_space path) [])) [
    | inl e ↦ rw e tt
    | inr e ↦ elim (Result-cases (validate_paths cwd (trim_space path) files_dir)) [
      | inl (tt, v) ↦ rw (e, v) (refl, v, trim_space-IsTrimmed path)
      | inr (x, v) ↦ rw (e, v) tt
    ]
  ]

  cancel-LoopIsSound :
      (p t : Phase) (l : Option (Text × Bool))
      → has_loop t ≡ true
      → LoopIsSound p l
      → LoopIsSound t (cancel l)
  cancel-LoopIsSound p t none h s = tt
  cancel-LoopIsSound p t (some (path, c)) h (a, v, i) = (h, v, i)

  no_loop :
      (p t : Phase) (l : Option (Text × Bool))
      → has_loop p ≡ false
      → LoopIsSound p l
      → LoopIsSound t l
  no_loop p t none h s = tt
  no_loop p t (some (path, c)) h (a, v, i) = cc

  step-IsSound : {s t : State} → ◌⟶◌ cwd files_dir s t → IsSound s → IsSound t
  step-IsSound (finish p l) h = h
  step-IsSound (leave l) h = no_loop looking stopped l refl h
  step-IsSound (read path) h = look-IsSound path
  step-IsSound (idle_done l) h = no_loop idle stopped l refl h
  step-IsSound (idle_restart l d) h = no_loop idle looking l refl h
  step-IsSound (watching_done l) h = cancel-LoopIsSound watching (closing true) l refl h
  step-IsSound (watching_restart l d) h = cancel-LoopIsSound watching (closing false) l refl h
  step-IsSound (watching_ended d) h = tt
  step-IsSound (closed_stop d) h = tt
  step-IsSound (closed_again d) h = tt
  step-IsSound (cooling_done l) h = no_loop cooling stopped l refl h
  step-IsSound (cooling_over l d) h = no_loop cooling looking l refl h
  step-IsSound (loop_returns p path c d) h = tt

  -- In every run of the supervisor from its start, under every interleaving with its loops, a live
  -- watch loop is one that the supervisor has started and waits for, so none is left when it looks
  -- for a folder, rests or has returned, and the loop's folder is trimmed and accepted by
  -- `ValidatePaths`.
  pub Run-IsSound : {n : ℕ} {s t : State} → Run cwd files_dir n s t → IsSound s → IsSound t
  Run-IsSound (here s) h = h
  Run-IsSound (next e r) h = Run-IsSound r (step-IsSound e h)

  -- How many steps are left once the context is done.
  abbrev phase_rank : Phase → ℕ
  phase_rank stopped = 0
  phase_rank looking = 1
  phase_rank idle = 2
  phase_rank cooling = 2
  phase_rank (closing again) = 2
  phase_rank watching = 3

  abbrev loop_rank : Option (Text × Bool) → ℕ
  loop_rank none = 0
  loop_rank (some l) = 1

  abbrev rank : State → ℕ
  rank s = phase_rank s.phase + loop_rank s.loop

  cancel_rank : (l : Option (Text × Bool)) → loop_rank (cancel l) ≡ loop_rank l
  cancel_rank none = refl
  cancel_rank (some (path, c)) = refl

  step-rank :
      {s t : State} → ◌⟶◌ cwd files_dir s t → s.done ≡ true → (t.done ≡ true) × (rank t < rank s)
  step-rank (finish p l) d = cc
  step-rank (leave l) d = (refl, omega arith)
  step-rank (read path) d = cc
  step-rank (idle_done l) d = (refl, omega arith)
  step-rank (idle_restart l b) d = (d, omega arith)
  step-rank (watching_done l) d = (refl, omega (arith, cancel_rank l))
  step-rank (watching_restart l b) d = (d, omega (arith, cancel_rank l))
  step-rank (watching_ended b) d = (d, omega arith)
  step-rank (closed_stop b) d = (d, omega arith)
  step-rank (closed_again b) d = (d, omega arith)
  step-rank (cooling_done l) d = (refl, omega arith)
  step-rank (cooling_over l b) d = (d, omega arith)
  step-rank (loop_returns p path c b) d = (d, omega arith)

  Run-rank : {n : ℕ} {s t : State} → Run cwd files_dir n s t → s.done ≡ true → n + rank t ≤ rank s
  Run-rank (here s) d = omega arith
  Run-rank (next e r) d = let (d', less) = step-rank e d in omega (arith, Run-rank r d', less)

  rank-le : (p : Phase) (l : Option (Text × Bool)) → phase_rank p + loop_rank l ≤ 4
  rank-le stopped none = omega arith
  rank-le stopped (some l) = omega arith
  rank-le looking none = omega arith
  rank-le looking (some l) = omega arith
  rank-le idle none = omega arith
  rank-le idle (some l) = omega arith
  rank-le cooling none = omega arith
  rank-le cooling (some l) = omega arith
  rank-le (closing b) none = omega arith
  rank-le (closing b) (some l) = omega arith
  rank-le watching none = omega arith
  rank-le watching (some l) = omega arith

  -- While the supervisor has not returned and its context is done, some step is possible.
  progress :
      (p : Phase) (l : Option (Text × Bool))
      → (p ≡ stopped)
        ⊎ ((t : State) × ◌⟶◌ cwd files_dir (record { phase = p; loop = l; done = true }) t)
  progress stopped l = inl refl
  progress looking l = inr (_, leave l)
  progress idle l = inr (_, idle_done l)
  progress cooling l = inr (_, cooling_done l)
  progress watching l = inr (_, watching_done l)
  progress (closing b) (some (path, c)) = inr (_, loop_returns (closing b) path c true)
  progress (closing true) none = inr (_, closed_stop true)
  progress (closing false) none = inr (_, closed_again true)

  Run-done : {n : ℕ} {s t : State} → Run cwd files_dir n s t → s.done ≡ true → t.done ≡ true
  Run-done (here s) d = d
  Run-done (next e r) d = Run-done r (step-rank e d).0

  -- Once its context is done, the supervisor returns: no run has more than four steps left, under
  -- every interleaving with its loop, and as long as the supervisor has not returned, some step is
  -- possible.
  pub Run-ends :
      {n : ℕ} {s t : State}
      → Run cwd files_dir n s t
      → s.done ≡ true
      → (n ≤ 4) × ((t.phase ≡ stopped) ⊎ ((v : State) × ◌⟶◌ cwd files_dir t v))
  Run-ends {s} {t} r d =
      let on : true ≡ t.done = sym (Run-done r d) in
      (
        omega (arith, Run-rank r d, rank-le s.phase s.loop),
        subst
            (λ b.
              (t.phase ≡ stopped)
              ⊎ ((v : State) × ◌⟶◌ cwd files_dir
                    (record { phase = t.phase; loop = t.loop; done = b }) v))
            on (progress t.phase t.loop),
      )
