-- ===== src/Text/Trim.antt =====
-- `str::trim`.
use mathlib.Core.List.{reverse-append}
use trace_gate.Base.{
  ◌≡◌, refl, ap, false, List, [], ◌∷◌, ◌++◌, map, reverse, arith, if◌then◌else◌, inl, inr,
  Bool-cases,
}
use trace_gate.Text.Chars.{Text, to_ascii_lowercase, is_whitespace, is_whitespace-ascii_lower}

unfoldable pub trim_start : Text → Text
trim_start [] = []
trim_start (c ∷ t) = if is_whitespace c then trim_start t else c ∷ t

unfoldable pub trim_end : Text → Text
trim_end t = reverse (trim_start (reverse t))

unfoldable pub trim : Text → Text
trim t = trim_end (trim_start t)

pub map-append {ℓ κ} :
    {A : Type ℓ} {B : Type κ} (f : A → B) (s t : List A) → map f (s ++ t) ≡ map f s ++ map f t
map-append f [] t = refl
map-append f (x ∷ s) t = ap (λ r. f x ∷ r) (map-append f s t)

pub map-reverse {ℓ κ} :
    {A : Type ℓ} {B : Type κ} (f : A → B) (t : List A) → map f (reverse t) ≡ reverse (map f t)
map-reverse f [] = refl
map-reverse f (x ∷ t) =
    simp (
      reverse-append (x ∷ []) t,
      map-append f,
      map-reverse f t,
      reverse-append (f x ∷ []) (map f t),
    )

trim_start-lower :
    (t : Text) → trim_start (to_ascii_lowercase t) ≡ to_ascii_lowercase (trim_start t)
unfolding trim_start
trim_start-lower [] = refl
trim_start-lower (c ∷ t) = ground (arith, is_whitespace-ascii_lower c, trim_start-lower t)

trim_end-lower : (t : Text) → trim_end (to_ascii_lowercase t) ≡ to_ascii_lowercase (trim_end t)
unfolding trim_end
trim_end-lower t = simp (← map-reverse, trim_start-lower)

-- Trimming does not depend on ASCII case.
pub trim-lower : (t : Text) → trim (to_ascii_lowercase t) ≡ to_ascii_lowercase (trim t)
trim-lower t = unfold trim in rw (trim_start-lower, trim_end-lower)

-- The text begins with no whitespace.
abbrev pub BeginsTight : Text → Type 0
BeginsTight [] = Unit
BeginsTight (c ∷ t) = is_whitespace c ≡ false

pub trim_start_tight : (t : Text) → BeginsTight t → trim_start t ≡ t
unfolding trim_start
trim_start_tight [] h = refl
trim_start_tight (c ∷ t) h = rw h

trim_start-BeginsTight : (t : Text) → BeginsTight (trim_start t)
unfolding trim_start
trim_start-BeginsTight [] = tt
trim_start-BeginsTight (c ∷ t) = elim (Bool-cases (is_whitespace c)) [
  | inl e ↦ rw e (trim_start-BeginsTight t)
  | inr e ↦ rw e e
]
