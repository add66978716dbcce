-- ===== src/Text/Chars.antt =====
-- Characters and whole strings: equality, ASCII case, classes, prefixes, lengths.
use Prim.Native.Char.{code}
use Prim.Native.String.{String}
use trace_gate.Base.{
  ℕ, ◌+◌, ◌≡◌, refl, ◌↔◌, Bool, true, false, ◌&&◌, ◌||◌, Option, none, some, List, [], ◌∷◌, ◌++◌,
  map, reverse, arith, leb, ltb, ◌==◌, if◌then◌else◌, any, Bool-cases, inl, inr, sym, ◌∙◌,
}

abbrev pub Text : Type 0
Text = List ℕ

-- A string literal of the source.
abbrev pub codes : String → Text
codes String.[] = []
codes (String.◌∷◌ c s) = code c ∷ codes s

unfoldable pub text_eq : Text → Text → Bool
text_eq [] [] = true
text_eq [] (y ∷ t) = false
text_eq (x ∷ s) [] = false
text_eq (x ∷ s) (y ∷ t) = x == y && text_eq s t

pub text_eq_iff : (s t : Text) → (text_eq s t ≡ true) ↔ (s ≡ t)
unfolding text_eq
text_eq_iff [] [] = (λ _. refl, λ _. refl)
text_eq_iff [] (y ∷ t) = ground arith
text_eq_iff (x ∷ s) [] = ground arith
text_eq_iff (x ∷ s) (y ∷ t) = ground (arith, text_eq_iff s t)

pub text_eq_refl : (s : Text) → text_eq s s ≡ true
text_eq_refl s = (text_eq_iff s s).1 refl

-- `char::to_ascii_lowercase`
unfoldable pub ascii_lower : ℕ → ℕ
ascii_lower c = if leb b'A' c && leb c b'Z' then c + 32 else c

-- `str::to_ascii_lowercase`
abbrev pub to_ascii_lowercase : Text → Text
to_ascii_lowercase t = map ascii_lower t

-- `str::eq_ignore_ascii_case`
unfoldable pub eq_ignore_ascii_case : Text → Text → Bool
eq_ignore_ascii_case s t = text_eq (to_ascii_lowercase s) (to_ascii_lowercase t)

pub ascii_lower_idem : (c : ℕ) → ascii_lower (ascii_lower c) ≡ ascii_lower c
unfolding ascii_lower
ascii_lower_idem c = ground arith

pub to_ascii_lowercase_idem :
    (t : Text) → to_ascii_lowercase (to_ascii_lowercase t) ≡ to_ascii_lowercase t
to_ascii_lowercase_idem [] = refl
to_ascii_lowercase_idem (c ∷ t) = ground (arith, ascii_lower_idem c, to_ascii_lowercase_idem t)

-- `char::is_ascii_alphanumeric`
unfoldable pub is_ascii_alphanumeric : ℕ → Bool
is_ascii_alphanumeric c =
    (leb b'0' c && leb c b'9') || ((leb b'A' c && leb c b'Z') || (leb b'a' c && leb c b'z'))

-- `char::is_whitespace`: the code points with the property White_Space.
unfoldable pub is_whitespace : ℕ → Bool
is_whitespace c =
    (leb 9 c && leb c 13)
    || (c == 32
        || (c == 0x85
            || (c == 0xa0
                || (c == 0x1680
                    || ((leb 0x2000 c && leb c 0x200a)
                        || (c == 0x2028
                            || (c == 0x2029 || (c == 0x202f || (c == 0x205f || c == 0x3000)))))))))

-- `str::len`: the bytes of UTF-8.
unfoldable pub utf8_len_char : ℕ → ℕ
utf8_len_char c =
    if ltb c 0x80 then 1 else if ltb c 0x800 then 2 else if ltb c 0x10000 then 3 else 4

unfoldable pub utf8_len : Text → ℕ
utf8_len [] = 0
utf8_len (c ∷ t) = utf8_len_char c + utf8_len t

-- `str::strip_prefix`, the string first.
unfoldable pub strip_prefix : Text → Text → Option Text
strip_prefix s [] = some s
strip_prefix [] (c ∷ p) = none
strip_prefix (x ∷ s) (c ∷ p) = if x == c then strip_prefix s p else none

-- `str::starts_with`
unfoldable pub starts_with : Text → Text → Bool
starts_with s [] = true
starts_with [] (c ∷ p) = false
starts_with (x ∷ s) (c ∷ p) = x == c && starts_with s p

-- `str::ends_with`
unfoldable pub ends_with : Text → Text → Bool
ends_with s p = starts_with (reverse s) (reverse p)

-- `str::contains` of one character.
abbrev pub contains_char : ℕ → Text → Bool
contains_char c t = any (λ x. x == c) t

-- A prefix can be stripped exactly when the string is that prefix and the rest.
pub strip_prefix_iff : (s p r : Text) → (strip_prefix s p ≡ some r) ↔ (s ≡ p ++ r)
unfolding strip_prefix
strip_prefix_iff s [] r = ground arith
strip_prefix_iff [] (c ∷ p) r = ground arith
strip_prefix_iff (x ∷ s) (c ∷ p) r = ground (arith, strip_prefix_iff s p r)

pub utf8_len-append : (s t : Text) → utf8_len (s ++ t) ≡ utf8_len s + utf8_len t
unfolding utf8_len
utf8_len-append [] t = ground arith
utf8_len-append (c ∷ s) t = ground (arith, utf8_len-append s t)

-- ASCII case leaves the other classes alone.
pub is_whitespace-ascii_lower : (c : ℕ) → is_whitespace (ascii_lower c) ≡ is_whitespace c
unfolding ascii_lower is_whitespace
is_whitespace-ascii_lower c = ground arith

pub ascii_lower-eq : (c d : ℕ) → is_ascii_alphanumeric d ≡ false → (ascii_lower c == d) ≡ (c == d)
unfolding ascii_lower is_ascii_alphanumeric
ascii_lower-eq c d h = ground arith

pub text_eq_comm : (s t : Text) → text_eq s t ≡ text_eq t s
text_eq_comm s t = elim (Bool-cases (text_eq s t)) [
  | inl e ↦ e ∙ sym ((text_eq_iff t s).1 (sym ((text_eq_iff s t).0 e)))
  | inr e ↦ elim (Bool-cases (text_eq t s)) [
    | inl q ↦ (text_eq_iff s t).1 (sym ((text_eq_iff t s).0 q)) ∙ sym q
    | inr q ↦ e ∙ sym q
  ]
]
