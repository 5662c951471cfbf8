-- ===== src/Weekly/Spacing.antt =====
-- When a weekly task runs.
use telegram_digest_bot.Base.{
  ℕ, ◌+◌, ◌<◌, ◌≡◌, sym, ap, ◌∙◌, subst, ◌⊎◌, inl, inr, Bool, true, false, ◌&&◌, List, [], ◌∷◌,
  if◌then◌else◌, arith, Bool-cases,
}
use telegram_digest_bot.Weekly.{WeeklyTask, or_default, check_and_run_task, should_run_weekly}

-- One check of a task: its moment, and what the functions of the task answer.
pub record Check : Type 0 where
  pub now : ℕ
  pub is_enabled : Bool
  pub succeeds : Bool

pick_true : {A : Type 0} {b : Bool} (x y : A) → b ≡ true → (if b then x else y) ≡ x
pick_true x y h = ap (λ c. if c then x else y) h

pick_false : {A : Type 0} {b : Bool} (x y : A) → b ≡ false → (if b then x else y) ≡ y
pick_false x y h = ap (λ c. if c then x else y) h

module _ (weekday : ℕ → ℕ) (hour_of : ℕ → ℕ) where
  -- The moments of the runs that succeed in a history of checks.
  unfoldable pub successes : List Check → WeeklyTask → List ℕ
  unfolding check_and_run_task
  successes [] task = []
  successes (c ∷ checks) task =
      let (task', ran) = check_and_run_task weekday hour_of c.now c.is_enabled c.succeeds task in
      let rest = successes checks task' in if ran && c.succeeds then c.now ∷ rest else rest

  -- Each moment is more than `grace` after the one before; 0 stands for no moment.
  abbrev pub IsSpaced : ℕ → ℕ → List ℕ → Type 0
  IsSpaced grace last [] = Unit
  IsSpaced grace last (t ∷ ts) = ((last ≡ 0) ⊎ (last + grace < t)) × IsSpaced grace t ts

  -- Runs of a task that succeed lie further apart than its grace period, however often it is checked.
  pub successes-IsSpaced :
      (checks : List Check) (task : WeeklyTask)
      → IsSpaced task.grace_period task.last_run (successes checks task)
  unfolding successes check_and_run_task
  successes-IsSpaced [] task = tt
  successes-IsSpaced (c ∷ checks) task = elim (Bool-cases (checked.1 && c.succeeds)) [
    | inl run ↦
        let moved : checked.0 ≡ ran_now = ground (arith, run) in
        let spaced : (task.last_run ≡ 0) ⊎ (task.last_run + task.grace_period < c.now) =
          ground (arith, run) in
        subst (IsSpaced task.grace_period task.last_run)
          (sym (pick_true _ _ run ∙ ap (λ x. c.now ∷ successes checks x) moved))
          (spaced, successes-IsSpaced checks ran_now)
    | inr idle ↦
        let kept : checked.0 ≡ task = ground (arith, idle) in
        subst (IsSpaced task.grace_period task.last_run)
          (sym (pick_false _ _ idle ∙ ap (successes checks) kept)) (successes-IsSpaced checks task)
  ]
    where
      checked : WeeklyTask × Bool
      checked = check_and_run_task weekday hour_of c.now c.is_enabled c.succeeds task

      ran_now : WeeklyTask
      ran_now = record task { last_run = c.now }

  -- For a task whose grace period is the given one, or the default one where none is given, a check runs
  -- the task exactly if it is enabled and the standalone test says so.
  pub should_run_weekly_lem :
      (now : ℕ) (is_enabled succeeds : Bool) (task : WeeklyTask) (grace : ℕ)
      → task.grace_period ≡ or_default grace
      → (check_and_run_task weekday hour_of now is_enabled succeeds task).1 ≡ (
          is_enabled
          && should_run_weekly weekday hour_of now task.day task.hour task.last_run grace)
  unfolding check_and_run_task should_run_weekly
  should_run_weekly_lem now is_enabled succeeds task grace h = ground (arith, h)
