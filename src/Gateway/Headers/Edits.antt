-- ===== src/Gateway/Headers/Edits.antt =====
-- What the edits of headers leave.
use trace_gate.Base.{
  Bool, false, any, Option, none, some, List, [], ◌∷◌, ◌≡◌, inl, inr, refl, ap, ◌∙◌, arith,
  Bool-cases, if◌then◌else◌,
}
use trace_gate.Text.{Text, text_eq, text_eq_iff}
use trace_gate.Gateway.Headers.{
  HeaderMap, HeaderLaws, remove_each, remove_hop_by_hop_headers, hop_by_hop, apply_policy_mutations,
  apply_sets, apply_removals, HeaderMutation, remove_parsed, insert_parsed,
}

module _ (H : HeaderMap) (law : HeaderLaws H) (n : Text) where
  -- A removed name is gone, the others keep their value.
  remove_one :
      (m : H.Map) (x : Text) → H.get (H.remove m x) n ≡ (if text_eq x n then none else H.get m n)
  remove_one m x = elim (Bool-cases (text_eq x n)) [
    | inl e ↦ rw (e, (text_eq_iff x n).0 e) (law.get-remove_self m n)
    | inr e ↦ rw e (law.get-remove_ne m x n e)
  ]

  pub get-remove_each :
      (names : List Text) (m : H.Map)
      → H.get (remove_each H names m) n ≡ (if any (λ x. text_eq x n) names then none else H.get m n)
  unfolding remove_each
  get-remove_each [] m = refl
  get-remove_each (x ∷ names) m =
      ground (arith, remove_one m x, get-remove_each names (H.remove m x))

  -- After the removal of the hop-by-hop headers none of them is left, and every other header keeps
  -- its value.
  pub get-remove_hop_by_hop_headers :
      (m : H.Map)
      → H.get (remove_hop_by_hop_headers H m) n
        ≡ (if any (λ x. text_eq x n) hop_by_hop then none else H.get m n)
  unfolding remove_hop_by_hop_headers
  get-remove_hop_by_hop_headers m = get-remove_each hop_by_hop m

  abbrev pub or_else : Option H.Value → Option H.Value → Option H.Value
  or_else none v = v
  or_else (some u) v = some u

  or_else_assoc : (a b c : Option H.Value) → or_else a (or_else b c) ≡ or_else (or_else a b) c
  or_else_assoc none b c = refl
  or_else_assoc (some u) b c = refl

  abbrev names_it : Option Text → Bool
  names_it none = false
  names_it (some x) = text_eq x n

  abbrev value_if : Bool → Option H.Value → Option H.Value
  value_if named v = if named then v else none

  -- The value of the last mutation that names the header and is well-formed.
  abbrev pub last_set : List HeaderMutation → Option H.Value
  last_set [] = none
  last_set (s ∷ ss) =
      or_else (last_set ss) (value_if (names_it (H.parse_name s.name)) (H.from_str s.value))

  -- Whether a removal names the header.
  abbrev pub is_removed : List Text → Bool
  is_removed removals = any (λ r. names_it (H.parse_name r)) removals

  remove_parsed_lem :
      (o : Option Text) (m : H.Map)
      → H.get (remove_parsed H o m) n ≡ (if names_it o then none else H.get m n)
  remove_parsed_lem none m = refl
  remove_parsed_lem (some x) m = remove_one m x

  get-apply_removals :
      (removals : List Text) (m : H.Map)
      → H.get (apply_removals H removals m) n ≡ (if is_removed removals then none else H.get m n)
  unfolding apply_removals
  get-apply_removals [] m = refl
  get-apply_removals (r ∷ removals) m = ground (
    arith,
    remove_parsed_lem (H.parse_name r) m,
    get-apply_removals removals (remove_parsed H (H.parse_name r) m),
  )

  insert_parsed_lem :
      (o : Option Text) (v : Option H.Value) (m : H.Map)
      → H.get (insert_parsed H o v m) n ≡ or_else (value_if (names_it o) v) (H.get m n)
  insert_parsed_lem none v m = refl
  insert_parsed_lem (some x) none m = elim (Bool-cases (text_eq x n)) [
    | inl e ↦ rw e refl
    | inr e ↦ rw e refl
  ]
  insert_parsed_lem (some x) (some v) m = elim (Bool-cases (text_eq x n)) [
    | inl e ↦ rw (e, (text_eq_iff x n).0 e) (law.get-insert_self m n v)
    | inr e ↦ rw e (law.get-insert_ne m x n v e)
  ]

  get-apply_sets :
      (sets : List HeaderMutation) (m : H.Map)
      → H.get (apply_sets H sets m) n ≡ or_else (last_set sets) (H.get m n)
  unfolding apply_sets
  get-apply_sets [] m = refl
  get-apply_sets (s ∷ sets) m =
      get-apply_sets sets (insert_parsed H (H.parse_name s.name) (H.from_str s.value) m)
      ∙ ap (or_else (last_set sets))
          (insert_parsed_lem (H.parse_name s.name) (H.from_str s.value) m)
      ∙ or_else_assoc (last_set sets)
          (value_if (names_it (H.parse_name s.name)) (H.from_str s.value)) (H.get m n)

  -- After the plugins' mutations a header has the value of the last well-formed mutation that sets it;
  -- else it is gone if a removal names it; else it keeps its value. So a header that is both set and
  -- removed is set.
  pub get-apply_policy_mutations :
      (m : H.Map) (sets : List HeaderMutation) (removals : List Text)
      → H.get (apply_policy_mutations H m sets removals) n
        ≡ or_else (last_set sets) (if is_removed removals then none else H.get m n)
  unfolding apply_policy_mutations
  get-apply_policy_mutations m sets removals =
      get-apply_sets sets (apply_removals H removals m)
      ∙ ap (or_else (last_set sets)) (get-apply_removals removals m)
