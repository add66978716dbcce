-- ===== src/Gateway/Upstream/Retries.antt =====
-- How many attempts are made, and which answer is returned.
use trace_gate.Base.{
  ℕ, zero, suc, ◌+◌, ◌-◌, ◌≤◌, ◌<◌, min, Option, none, some, Result, ok, err, ◌≡◌, refl, ap, ◌∙◌,
  arith, inl, inr, ◌⊎◌, subst, sym,
}
use trace_gate.Base.Words.{u32_mod}
use trace_gate.Gateway.Upstream.{AttemptError, attempts_from, request_with_retries}

module _ {R : Type 0} (attempt : ℕ → Result AttemptError R) where
  abbrev pub Failed : ℕ → Type 0
  Failed i = (e : AttemptError) × (attempt i ≡ err e)

  -- The first success among the attempts so far, or the error of the last of them.
  abbrev pub Outcome : ℕ → ℕ → Result AttemptError R → ℕ → Type 0
  Outcome start attempts (ok r) made =
      (k : ℕ) × (start ≤ k)
      × (k < start + attempts)
      × (made ≡ suc k)
      × (attempt k ≡ ok r)
      × ((j : ℕ) → start ≤ j → j < k → Failed j)
  Outcome start attempts (err e) made =
      (made ≡ start + attempts)
      × (0 < attempts)
      × (attempt (made - 1) ≡ err e)
      × ((j : ℕ) → start ≤ j → j < start + attempts → Failed j)

  result_cases :
      (r : Result AttemptError R) → ((x : R) × (r ≡ ok x)) ⊎ ((e : AttemptError) × (r ≡ err e))
  result_cases (ok x) = inl (x, refl)
  result_cases (err e) = inr (e, refl)

  eq_or_later : (i j : ℕ) → i ≤ j → (i ≡ j) ⊎ (suc i ≤ j)
  eq_or_later i j h = grind arith

  -- The failure of the attempt before.
  Outcome-suc :
      (i n : ℕ) (r : Result AttemptError R) (made : ℕ)
      → Failed i
      → Outcome (suc i) n r made
      → Outcome i (suc n) r made
  Outcome-suc i n (ok x) made f (k, above, below, counted, success, before) = (
    k,
    omega arith,
    omega arith,
    counted,
    success,
    λ j h h'. elim (eq_or_later i j h) [
      | inl same ↦ subst Failed same f
      | inr later ↦ before j later h'
    ],
  )
  Outcome-suc i n (err e) made f (counted, pos, last, before) = (
    omega arith,
    omega arith,
    last,
    λ j h h'. elim (eq_or_later i j h) [
      | inl same ↦ subst Failed same f
      | inr later ↦ before j later (omega arith)
    ],
  )

  module _ (i left : ℕ) (last : Option AttemptError) where
    step_ok : (x : R) → attempt i ≡ ok x → attempts_from attempt i (suc left) last ≡ (ok x, suc i)
    unfolding attempts_from
    step_ok x e = rw (e, attempts_from) refl

    step_err :
        (x : AttemptError)
        → attempt i ≡ err x
        → attempts_from attempt i (suc left) last ≡ attempts_from attempt (suc i) left (some x)
    unfolding attempts_from
    step_err x e = rw (e, attempts_from) refl

    abbrev Ends : Result AttemptError R × ℕ → Type 0
    Ends o = Outcome i (suc left) o.0 o.1

    succeeds : (x : R) → attempt i ≡ ok x → Ends (attempts_from attempt i (suc left) last)
    succeeds x e =
        subst Ends (sym (step_ok x e))
          (i, omega arith, omega arith, refl, e, λ j h h'. absurd (omega arith))

    fails_last :
        (x : AttemptError)
        → left ≡ 0
        → attempt i ≡ err x
        → Ends (attempts_from attempt i (suc left) last)
    unfolding attempts_from
    fails_last x none_left e =
        let here : attempt (suc i - 1) ≡ err x = ap attempt (omega arith) ∙ e in
        subst Ends (sym (step_err x e)) (
          rw none_left (
            omega arith,
            omega arith,
            here,
            λ j h h'. let same : i ≡ j = omega arith in subst Failed same (x, e),
          ))

  attempts_from_lem :
      (i left : ℕ) (last : Option AttemptError)
      → Outcome i
          (suc left)
          (attempts_from attempt i (suc left) last).0
          (attempts_from attempt i (suc left) last).1
  attempts_from_lem i zero last = elim (result_cases (attempt i)) [
    | inl (x, e) ↦ succeeds i zero last x e
    | inr (x, e) ↦ fails_last i zero last x refl e
  ]
  attempts_from_lem i (suc left) last = elim (result_cases (attempt i)) [
    | inl (x, e) ↦ succeeds i (suc left) last x e
    | inr (x, e) ↦ subst (Ends i (suc left) last) (sym (step_err i (suc left) last x e)) (
        Outcome-suc i (suc left) (attempts_from attempt (suc i) (suc left) (some x)).0
          (attempts_from attempt (suc i) (suc left) (some x)).1 (x, e)
          (attempts_from_lem (suc i) left (some x)))
  ]

  -- An eligible request is tried `retries + 1` times at most (a `u32` that saturates): the first
  -- answer is returned and ends the attempts, and an error is returned only after all of them
  -- failed; it is the last one's.
  pub request_with_retries-Outcome :
      (retries : ℕ)
      → Outcome 0
          (min (suc retries) (u32_mod - 1))
          (request_with_retries attempt retries).0
          (request_with_retries attempt retries).1
  unfolding request_with_retries
  request_with_retries-Outcome retries =
      let some_attempt : min (suc retries) (u32_mod - 1) ≡ suc (min retries (u32_mod - 2)) =
        omega arith in
      rw some_attempt (attempts_from_lem 0 (min retries (u32_mod - 2)) none)
