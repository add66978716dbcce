-- ===== src/Storage/Retention/Bodies.antt =====
-- A table without candidates for an eviction.
use trace_gate.Base.{
  ℕ, false, ◌||◌, Option, none, some, is_some, List, [], ◌∷◌, filter, take, leb, All, ◌≡◌, refl,
  sym, ap, ◌∙◌, arith, Bool-cases, inl, inr,
}
use trace_gate.Text.{Text}
use trace_gate.Storage.Rows.{CaptureDetails}
use trace_gate.Storage.Retention.{
  Captures, body_len, body_bytes, total_capture_bytes, is_candidate, insert_oldest, oldest_first,
  eviction_candidates,
}
use trace_gate.Storage.Retention.Evicted.{IsEmptied, is_due}

insert_oldest-cons :
    (x : Text × CaptureDetails) (xs : Captures)
    → (y : Text × CaptureDetails) × (ys : Captures) × (insert_oldest x xs ≡ y ∷ ys)
unfolding insert_oldest
insert_oldest-cons x [] = (_, _, refl)
insert_oldest-cons x (y ∷ xs) = elim (Bool-cases (leb x.1.created_at_ms y.1.created_at_ms)) [
  | inl e ↦ (x, y ∷ xs, rw e refl)
  | inr e ↦ (y, insert_oldest x xs, rw e refl)
]

nothing_sorted : (xs : Captures) → take 100 (oldest_first xs) ≡ [] → xs ≡ []
unfolding oldest_first
nothing_sorted [] h = refl
nothing_sorted (x ∷ xs) h =
    let (y, ys, e) = insert_oldest-cons x (oldest_first xs) in
    let no : y ∷ take 99 ys ≡ [] = ap (take 100) (sym e) ∙ h in absurd cc

no_body : (o : Option (List ℕ)) → is_some o ≡ false → body_len o ≡ 0
no_body none h = refl
no_body (some b) h = cc

bodiless :
    (c : CaptureDetails) (id : Text) → IsEmptied (id, c) → is_candidate c ≡ false → body_bytes c ≡ 0
unfolding is_candidate body_bytes
bodiless c id emptied h = elim (Bool-cases c.body_evicted) [
  | inl e ↦ let (a, b) = emptied e in rw (a, b) refl
  | inr e ↦
      let both : (is_some c.request_body || is_some c.response_body) ≡ false = rw e at h in
      let a : is_some c.request_body ≡ false = ground (arith, both) in
      let b : is_some c.response_body ≡ false = ground (arith, both) in
      rw (no_body c.request_body a, no_body c.response_body b) refl
]

no_candidate :
    (xs : Captures) → All IsEmptied xs → filter is_due xs ≡ [] → total_capture_bytes xs ≡ 0
unfolding total_capture_bytes
no_candidate [] l h = refl
no_candidate (x ∷ xs) (p, l) h = elim (Bool-cases (is_due x)) [
  | inl e ↦ let some_left : x ∷ filter is_due xs ≡ [] = rw e at h in absurd cc
  | inr e ↦ rw (bodiless x.1 x.0 p e, no_candidate xs l (rw e at h)) refl
]

pub eviction_candidates-none :
    (xs : Captures) → All IsEmptied xs → eviction_candidates xs ≡ [] → total_capture_bytes xs ≡ 0
unfolding eviction_candidates
eviction_candidates-none xs l h = no_candidate xs l (nothing_sorted (filter is_due xs) h)
