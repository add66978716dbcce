-- ===== src/Storage/Retention/Updated.antt =====
-- What one `UPDATE` of the captures keeps and what it frees.
use trace_gate.Base.{
  ◌+◌, ◌≤◌, ◌<◌, true, false, [], ◌∷◌, All, ◌≡◌, refl, ap, ◌∙◌, arith, Bool-cases, inl, inr,
}
use trace_gate.Text.{Text, text_eq, text_eq_comm, text_eq_refl}
use trace_gate.Storage.Rows.{CaptureDetails}
use trace_gate.Storage.Retention.{
  Captures, body_bytes, total_capture_bytes, is_candidate, evicted, evict,
}
use trace_gate.Storage.Retention.Evicted.{
  KeyIsOther, KeysAreDistinct, IsEmptied, Present, is_due, left,
}

evicted_bytes : (c : CaptureDetails) → body_bytes (evicted c) ≡ 0
unfolding body_bytes
evicted_bytes c = omega arith

module _ (id : Text) where
  pub evict-Present :
      (captures : Captures) (x : Text × CaptureDetails)
      → text_eq id x.0 ≡ false
      → Present captures x
      → Present (evict id captures) x
  unfolding evict
  evict-Present [] x h p = p
  evict-Present (y ∷ captures) x h p = elim (Bool-cases (text_eq y.0 id)) [
    | inl e ↦ rw e (
        inr (elim p [
          | inl same ↦
              let no : text_eq y.0 id ≡ false =
                ap (λ k. text_eq k id) (ap (λ z. z.0) same) ∙ text_eq_comm x.0 id ∙ h in
              absurd cc
          | inr later ↦ evict-Present captures x h later
        ]))
    | inr e ↦
        rw e (elim p [ inl same ↦ inl same | inr later ↦ inr (evict-Present captures x h later) ])
  ]

  evict-KeyIsOther :
      (y : Text × CaptureDetails) (captures : Captures)
      → All (KeyIsOther y) captures
      → All (KeyIsOther y) (evict id captures)
  unfolding evict
  evict-KeyIsOther y [] h = tt
  evict-KeyIsOther y (x ∷ captures) (p, h) = elim (Bool-cases (text_eq x.0 id)) [
    | inl e ↦ rw e (p, evict-KeyIsOther y captures h)
    | inr e ↦ rw e (p, evict-KeyIsOther y captures h)
  ]

  pub evict-KeysAreDistinct :
      (captures : Captures) → KeysAreDistinct captures → KeysAreDistinct (evict id captures)
  unfolding evict
  evict-KeysAreDistinct [] h = tt
  evict-KeysAreDistinct (x ∷ captures) (p, h) = elim (Bool-cases (text_eq x.0 id)) [
    | inl e ↦
        rw e (evict-KeyIsOther (x.0, evicted x.1) captures p, evict-KeysAreDistinct captures h)
    | inr e ↦ rw e (evict-KeyIsOther x captures p, evict-KeysAreDistinct captures h)
  ]

  pub evict-IsEmptied :
      (captures : Captures) → All IsEmptied captures → All IsEmptied (evict id captures)
  unfolding evict
  evict-IsEmptied [] h = tt
  evict-IsEmptied (x ∷ captures) (p, h) = elim (Bool-cases (text_eq x.0 id)) [
    | inl e ↦ rw e ((λ z. (refl, refl)), evict-IsEmptied captures h)
    | inr e ↦ rw e (p, evict-IsEmptied captures h)
  ]

  bytes_le :
      (captures : Captures) → total_capture_bytes (evict id captures) ≤ total_capture_bytes captures
  unfolding evict total_capture_bytes body_bytes
  bytes_le [] = omega arith
  bytes_le (x ∷ captures) = elim (Bool-cases (text_eq x.0 id)) [
    | inl e ↦ rw e (omega (arith, bytes_le captures))
    | inr e ↦ rw e (omega (arith, bytes_le captures))
  ]

  left_le : (captures : Captures) → left (evict id captures) ≤ left captures
  unfolding evict is_candidate
  left_le [] = omega arith
  left_le (x ∷ captures) = elim (Bool-cases (text_eq x.0 id)) [
    | inl e ↦ elim (Bool-cases (is_due x)) [
      | inl c ↦ rw (e, c) (omega (arith, left_le captures))
      | inr c ↦ rw (e, c) (left_le captures)
    ]
    | inr e ↦ elim (Bool-cases (is_due x)) [
      | inl c ↦ rw (e, c) (omega (arith, left_le captures))
      | inr c ↦ rw (e, c) (left_le captures)
    ]
  ]

  module _ (c : CaptureDetails) where
    -- The bytes of a capture are freed.
    pub evict_frees :
        (captures : Captures)
        → Present captures (id, c)
        → total_capture_bytes (evict id captures) + body_bytes c ≤ total_capture_bytes captures
    unfolding evict total_capture_bytes
    evict_frees [] p = absurd p
    evict_frees (x ∷ captures) (inl same) =
        let e : text_eq x.0 id ≡ true = ap (λ z. text_eq z.0 id) same ∙ text_eq_refl id in
        let b : body_bytes x.1 ≡ body_bytes c = ap (λ z. body_bytes z.1) same in
        rw e (omega (arith, b, evicted_bytes x.1, bytes_le captures))
    evict_frees (x ∷ captures) (inr later) = elim (Bool-cases (text_eq x.0 id)) [
      | inl e ↦ rw e (omega (arith, evicted_bytes x.1, evict_frees captures later))
      | inr e ↦ rw e (omega (arith, evict_frees captures later))
    ]

    -- One candidate less is left.
    pub evict_fewer :
        (captures : Captures)
        → Present captures (id, c)
        → is_candidate c ≡ true
        → left (evict id captures) < left captures
    unfolding evict is_candidate
    evict_fewer [] p h = absurd p
    evict_fewer (x ∷ captures) (inl same) h =
        let e : text_eq x.0 id ≡ true = ap (λ z. text_eq z.0 id) same ∙ text_eq_refl id in
        let b : is_due x ≡ true = ap is_due same ∙ h in rw (e, b) (omega (arith, left_le captures))
    evict_fewer (x ∷ captures) (inr later) h = elim (Bool-cases (text_eq x.0 id)) [
      | inl e ↦ elim (Bool-cases (is_due x)) [
        | inl b ↦ rw (e, b) (omega (arith, evict_fewer captures later h))
        | inr b ↦ rw (e, b) (evict_fewer captures later h)
      ]
      | inr e ↦ elim (Bool-cases (is_due x)) [
        | inl b ↦ rw (e, b) (omega (arith, evict_fewer captures later h))
        | inr b ↦ rw (e, b) (evict_fewer captures later h)
      ]
    ]
