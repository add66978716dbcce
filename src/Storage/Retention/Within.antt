-- ===== src/Storage/Retention/Within.antt =====
-- What is left of the store after a retention.
use trace_gate.Base.{
  ℕ, zero, suc, ◌-◌, ◌*◌, ◌≤◌, ◌<◌, min, ltb, leb, Bool, false, not, some, List, [], ◌∷◌, filter,
  length, All, ◌≡◌, refl, ap, subst, arith, Bool-cases, inl, inr, ◌⊎◌,
}
use trace_gate.Base.Words.{i64_max}
use trace_gate.Text.{Text}
use trace_gate.Core.Config.{StorageConfig}
use trace_gate.Storage.Rows.{RequestSummary, CaptureDetails, RetentionOutcome}
use trace_gate.Storage.Tables.{Tables}
use trace_gate.Storage.Retention.{
  Captures, total_capture_bytes, eviction_candidates, evict, Progress, evict_one, evict_each,
  evict_capture_bodies, is_old, delete_older, finish, finish_if, enough, run_retention_sqlite,
  run_retention,
}
use trace_gate.Storage.Retention.Evicted.{
  KeyIsOther, KeysAreDistinct, IsEmptied, left, Due, All-filter, filter-KeysAreDistinct,
  eviction_candidates-KeysAreDistinct, eviction_candidates-Due,
}
use trace_gate.Storage.Retention.Bodies.{eviction_candidates-none}
use trace_gate.Storage.Retention.Updated.{
  evict-Present, evict-KeysAreDistinct, evict-IsEmptied, evict_frees, evict_fewer,
}

pub record CapturesAreSound (captures : Captures) : Type 0 where
  pub distinct : KeysAreDistinct captures
  pub emptied : All IsEmptied captures

-- The total of the loop is not less than that of the table.
record ProgressIsSound (p : Progress) : Type 0 where
  pub captures : CapturesAreSound p.captures
  pub bound : total_capture_bytes p.captures ≤ p.total

module _ (max_total : ℕ) where
  still-Due :
      (x : Text × CaptureDetails) (captures candidates : Captures)
      → All (KeyIsOther x) candidates
      → All (Due captures) candidates
      → All (Due (evict x.0 captures)) candidates
  still-Due x captures [] h d = tt
  still-Due x captures (y ∷ candidates) (k, h) ((p, c), d) =
      ((evict-Present x.0 captures y k p, c), still-Due x captures candidates h d)

  one-ProgressIsSound :
      (p : Progress) (x : Text × CaptureDetails)
      → Due p.captures x
      → ProgressIsSound p
      → ProgressIsSound (evict_one max_total p x)
  one-ProgressIsSound p x (present, c) s = record {
    captures = record {
      distinct = evict-KeysAreDistinct x.0 p.captures s.captures.distinct;
      emptied = evict-IsEmptied x.0 p.captures s.captures.emptied;
    };
    bound = omega (arith, evict_frees x.0 x.1 p.captures present, s.bound);
  }

  -- A round keeps the invariant, and does not add candidates.
  each-ProgressIsSound :
      (candidates : Captures) (p : Progress)
      → All (Due p.captures) candidates
      → KeysAreDistinct candidates
      → ProgressIsSound p
      → ProgressIsSound (evict_each max_total p candidates)
        × (left (evict_each max_total p candidates).captures ≤ left p.captures)
  unfolding evict_each
  each-ProgressIsSound [] p d k s = (s, omega arith)
  each-ProgressIsSound (x ∷ candidates) p (d, ds) (k, ks) s =
      let after = evict_one max_total p x in
      let sound = one-ProgressIsSound p x d s in
      let fewer = evict_fewer x.0 x.1 p.captures d.0 d.1 in
      elim (Bool-cases (leb after.total max_total)) [
        | inl e ↦ rw e (sound, omega (arith, fewer))
        | inr e ↦
            let (later, less) =
              each-ProgressIsSound candidates after (still-Due x p.captures candidates k ds) ks
                sound in
            rw e (later, omega (arith, fewer, less))
      ]

  each_fewer :
      (x : Text × CaptureDetails) (candidates : Captures) (p : Progress)
      → All (Due p.captures) (x ∷ candidates)
      → KeysAreDistinct (x ∷ candidates)
      → ProgressIsSound p
      → left (evict_each max_total p (x ∷ candidates)).captures < left p.captures
  unfolding evict_each
  each_fewer x candidates p (d, ds) (k, ks) s =
      let after = evict_one max_total p x in
      let sound = one-ProgressIsSound p x d s in
      let fewer = evict_fewer x.0 x.1 p.captures d.0 d.1 in
      elim (Bool-cases (leb after.total max_total)) [
        | inl e ↦ rw e fewer
        | inr e ↦
            let (later, less) =
              each-ProgressIsSound candidates after (still-Due x p.captures candidates k ds) ks
                sound in
            rw e (omega (arith, fewer, less))
      ]

  -- The loop ends, and what is stored then is not more than the limit.
  loop_within :
      (fuel : ℕ) (p : Progress)
      → left p.captures < fuel
      → ProgressIsSound p
      → (p' : Progress) × (evict_capture_bodies max_total fuel p ≡ some p')
        × CapturesAreSound p'.captures
        × (total_capture_bytes p'.captures ≤ max_total)
  unfolding evict_capture_bodies
  loop_within zero p few s = absurd (omega arith)
  loop_within (suc fuel) p few s = elim (Bool-cases (ltb max_total p.total)) [
    | inr e ↦ (p, rw e refl, s.captures, omega (arith, below p.total e, s.bound))
    | inl e ↦ elim (list_cases (eviction_candidates p.captures)) [
      | inl none_due ↦
          let empty = eviction_candidates-none p.captures s.captures.emptied none_due in
          (p, rw (e, none_due) refl, s.captures, omega (arith, empty))
      | inr (x, candidates, some_due) ↦
          let due = subst (All (Due p.captures)) some_due (eviction_candidates-Due p.captures) in
          let distinct =
            subst KeysAreDistinct some_due
              (eviction_candidates-KeysAreDistinct p.captures s.captures.distinct) in
          let (sound, _) = each-ProgressIsSound (x ∷ candidates) p due distinct s in
          let less = each_fewer x candidates p due distinct s in
          let (p', ends, kept, small) =
            loop_within fuel (evict_each max_total p (x ∷ candidates)) (omega (arith, less, few))
              sound in
          (p', rw (e, some_due) ends, kept, small)
    ]
  ]
    where
      below : (n : ℕ) → ltb max_total n ≡ false → n ≤ max_total
      below n h = ground arith

      list_cases :
          (xs : Captures)
          → (xs ≡ []) ⊎ ((x : Text × CaptureDetails) × (rest : Captures) × (xs ≡ x ∷ rest))
      list_cases [] = inl refl
      list_cases (x ∷ xs) = inr (x, xs, refl)

linked-CapturesAreSound :
    (q : Text × CaptureDetails → Bool) (captures : Captures)
    → CapturesAreSound captures
    → CapturesAreSound (filter q captures)
linked-CapturesAreSound q captures s = record {
  distinct = filter-KeysAreDistinct q captures s.distinct;
  emptied = All-filter IsEmptied q captures s.emptied;
}

-- A row that is not older than the cutoff.
abbrev pub IsRecent : ℕ → RequestSummary → Type 0
IsRecent cutoff row = cutoff ≤ row.created_at_ms

recent :
    (cutoff : ℕ) (rows : List RequestSummary)
    → All (IsRecent cutoff) (filter (λ row. not (is_old cutoff row)) rows)
recent cutoff [] = tt
recent cutoff (row ∷ rows) = elim (Bool-cases (is_old cutoff row)) [
  | inl e ↦ rw e (recent cutoff rows)
  | inr e ↦ rw e (not_less row.created_at_ms cutoff e, recent cutoff rows)
]
  where
    not_less : (a b : ℕ) → ltb a b ≡ false → b ≤ a
    not_less a b h = ground arith

-- The retention ends, whatever the store holds. Then no request is older than the configured days,
-- and the bodies that are left have together no more bytes than the configured limit. The captures
-- are of different requests and evicted ones have no body, before and after.
pub run_retention-within :
    (now : ℕ) (config : StorageConfig) (t : Tables)
    → CapturesAreSound t.captures
    → (outcome : RetentionOutcome) × (after : Tables) × (run_retention now config t
        ≡ some (outcome, after))
      × CapturesAreSound after.captures
      × (total_capture_bytes after.captures ≤ config.max_total_capture_bytes)
      × All (IsRecent (now - config.retention_days * 24 * 60 * 60 * 1000)) after.requests
unfolding run_retention run_retention_sqlite delete_older
run_retention-within now config t sound =
    let cutoff = now - config.retention_days * 24 * 60 * 60 * 1000 in
    let rest = delete_older cutoff t in
    let kept = linked-CapturesAreSound _ t.captures sound in
    let start : Progress = record {
      total = total_capture_bytes rest.captures;
      captures = rest.captures;
      evicted_captures = 0;
    } in
    let (p, ends, good, small) =
      loop_within (min config.max_total_capture_bytes i64_max) (enough rest.captures) start
        (omega arith) (record { captures = kept; bound = omega arith }) in
    let (outcome, after) = finish (length (filter (is_old cutoff) t.requests)) rest p in
    (
      outcome,
      after,
      ap (finish_if (length (filter (is_old cutoff) t.requests)) rest) ends,
      good,
      omega (arith, small),
      recent cutoff t.requests,
    )
