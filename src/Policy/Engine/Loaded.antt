-- ===== src/Policy/Engine/Loaded.antt =====
-- The plugins of a route, after loading.
use trace_gate.Base.{
  ℕ, zero, suc, ◌<◌, Bool, true, false, Option, none, some, List, [], ◌∷◌, ◌++◌, map, filter,
  Result, ok, >>=-eq-ok, get_elem?, length, length-append, if◌then◌else◌, ◌≡◌, refl, ap, sym, ◌∙◌,
  arith, Bool-cases, inl, inr, All, subst,
}
use mathlib.Core.List.{append_assoc, append-nil}
use trace_gate.Text.{Text, text_eq, text_eq_iff, text_eq_comm}
use trace_gate.Core.Config.{PluginConfig}
use trace_gate.Policy.Decision.{PolicyError}
use trace_gate.Policy.Engine.{
  PolicyEngine, lookup, or_empty, push_index, push_each, indexed, cons_some, plugins_for, load_from,
  new_engine, empty_engine,
}

-- As often as the plugin names the route.
abbrev pub copies : Text → PluginConfig → List Text → List PluginConfig
copies route config routes = map (λ _. config) (filter (λ r. text_eq r route) routes)

abbrev pub named_by : Text → List PluginConfig → List PluginConfig
named_by route [] = []
named_by route (config ∷ configs) = copies route config config.routes ++ named_by route configs

abbrev at : List (Text × List ℕ) → Text → List ℕ
at entries route = or_empty (lookup entries route)

text_eq_trans : (r s t : Text) → text_eq r s ≡ true → text_eq r t ≡ text_eq s t
text_eq_trans r s t h = ap (λ x. text_eq x t) ((text_eq_iff r s).0 h)

at-push_index :
    (entries : List (Text × List ℕ)) (r : Text) (i : ℕ) (route : Text)
    → at (push_index entries r i) route
      ≡ at entries route ++ (if text_eq r route then i ∷ [] else [])
unfolding push_index
at-push_index [] r i route = elim (Bool-cases (text_eq r route)) [
  | inl e ↦ rw e refl
  | inr e ↦ rw e refl
]
at-push_index ((s, indexes) ∷ entries) r i route = elim (Bool-cases (text_eq s r)) [
  | inl e ↦ elim (Bool-cases (text_eq s route)) [
    | inl q ↦
        let q' : text_eq r route ≡ true = sym (text_eq_trans s r route e) ∙ q in rw (e, q, q') refl
    | inr q ↦
        let q' : text_eq r route ≡ false = sym (text_eq_trans s r route e) ∙ q in
        rw (e, q, q') (sym (append-nil (at entries route)))
  ]
  | inr e ↦ elim (Bool-cases (text_eq s route)) [
    | inl q ↦
        let q' : text_eq r route ≡ false =
          text_eq_comm r route ∙ sym (text_eq_trans s route r q) ∙ e in
        rw (e, q, q') (sym (append-nil indexes))
    | inr q ↦ rw (e, q) (at-push_index entries r i route)
  ]
]

abbrev as_often : Text → ℕ → List Text → List ℕ
as_often route i routes = map (λ _. i) (filter (λ r. text_eq r route) routes)

at-push_each :
    (entries : List (Text × List ℕ)) (routes : List Text) (i : ℕ) (route : Text)
    → at (push_each entries routes i) route ≡ at entries route ++ as_often route i routes
unfolding push_each
at-push_each entries [] i route = sym (append-nil (at entries route))
at-push_each entries (r ∷ routes) i route =
    at-push_each (push_index entries r i) routes i route
    ∙ ap (λ l. l ++ as_often route i routes) (at-push_index entries r i route)
    ∙ append_assoc (at entries route) (if text_eq r route then i ∷ [] else [])
        (as_often route i routes)
    ∙ ap (λ l. at entries route ++ l) (joined (text_eq r route))
  where
    joined :
        (b : Bool)
        → (if b then i ∷ [] else []) ++ as_often route i routes
          ≡ map
              (λ _. i)
              (if b
                then r ∷ filter (λ r. text_eq r route) routes
                else filter (λ r. text_eq r route) routes)
    joined true = refl
    joined false = refl

indexed-append :
    (ps : List PluginConfig) (is js : List ℕ)
    → indexed ps (is ++ js) ≡ indexed ps is ++ indexed ps js
unfolding indexed
indexed-append ps [] js = refl
indexed-append ps (i ∷ is) js =
    ap (cons_some (get_elem? ps i)) (indexed-append ps is js) ∙ out (get_elem? ps i)
  where
    out :
        (o : Option PluginConfig)
        → cons_some o (indexed ps is ++ indexed ps js)
          ≡ cons_some o (indexed ps is) ++ indexed ps js
    out none = refl
    out (some p) = refl

get_elem?-append :
    (ps qs : List PluginConfig) (i : ℕ) → i < length ps → get_elem? (ps ++ qs) i ≡ get_elem? ps i
get_elem?-append [] qs i h = absurd (omega arith)
get_elem?-append (p ∷ ps) qs zero h = refl
get_elem?-append (p ∷ ps) qs (suc i) h = get_elem?-append ps qs i (omega arith)

get_elem?-last :
    (ps : List PluginConfig) (p : PluginConfig) → get_elem? (ps ++ (p ∷ [])) (length ps) ≡ some p
get_elem?-last [] p = refl
get_elem?-last (q ∷ ps) p = get_elem?-last ps p

abbrev Below : ℕ → List ℕ → Type 0
Below n is = All (λ i. i < n) is

Below-append : (n : ℕ) (is js : List ℕ) → Below n is → Below n js → Below n (is ++ js)
Below-append n [] js a b = b
Below-append n (i ∷ is) js a b = (a.0, Below-append n is js a.1 b)

Below-suc : (n : ℕ) (is : List ℕ) → Below n is → Below (suc n) is
Below-suc n [] a = tt
Below-suc n (i ∷ is) a = (omega (arith, a.0), Below-suc n is a.1)

Below-as_often : (n : ℕ) (rs : List Text) → Below (suc n) (map (λ _. n) rs)
Below-as_often n [] = tt
Below-as_often n (r ∷ rs) = (omega arith, Below-as_often n rs)

indexed_grown :
    (ps qs : List PluginConfig) (is : List ℕ)
    → Below (length ps) is
    → indexed (ps ++ qs) is ≡ indexed ps is
unfolding indexed
indexed_grown ps qs [] a = refl
indexed_grown ps qs (i ∷ is) a =
    ap (λ o. cons_some o (indexed (ps ++ qs) is)) (get_elem?-append ps qs i a.0)
    ∙ ap (cons_some (get_elem? ps i)) (indexed_grown ps qs is a.1)

indexed_last :
    (ps : List PluginConfig) (p : PluginConfig) (rs : List Text)
    → indexed (ps ++ (p ∷ [])) (map (λ _. length ps) rs) ≡ map (λ _. p) rs
unfolding indexed
indexed_last ps p [] = refl
indexed_last ps p (r ∷ rs) =
    ap (λ o. cons_some o (indexed (ps ++ (p ∷ [])) (map (λ _. length ps) rs))) (get_elem?-last ps p)
    ∙ ap (λ l. p ∷ l) (indexed_last ps p rs)

module _ (load : PluginConfig → Result PolicyError (Unit {0})) (route : Text) where
  abbrev grown : PolicyEngine → PluginConfig → PolicyEngine
  grown engine config = record {
    plugins = engine.plugins ++ (config ∷ []);
    route_plugins = push_each engine.route_plugins config.routes (length engine.plugins);
  }

  abbrev InRange : PolicyEngine → Type 0
  InRange engine = Below (length engine.plugins) (at engine.route_plugins route)

  grown-InRange :
      (engine : PolicyEngine) (config : PluginConfig)
      → InRange engine
      → InRange (grown engine config)
  grown-InRange engine config a =
      let n = length engine.plugins in
      let longer : length (engine.plugins ++ (config ∷ [])) ≡ suc n =
        omega (arith, length-append engine.plugins (config ∷ [])) in
      subst (λ k. Below k (at (push_each engine.route_plugins config.routes n) route)) (sym longer)
        (subst (Below (suc n)) (sym (at-push_each engine.route_plugins config.routes n route)) (
          Below-append (suc n) (at engine.route_plugins route) (as_often route n config.routes)
            (Below-suc n (at engine.route_plugins route) a)
            (Below-as_often n (filter (λ r. text_eq r route) config.routes))))

  plugins_for-grown :
      (engine : PolicyEngine) (config : PluginConfig)
      → InRange engine
      → plugins_for (grown engine config) route
        ≡ plugins_for engine route ++ copies route config config.routes
  unfolding plugins_for
  plugins_for-grown engine config a =
      let n = length engine.plugins in
      let ps = engine.plugins ++ (config ∷ []) in
      ap (indexed ps) (at-push_each engine.route_plugins config.routes n route)
      ∙ indexed-append ps (at engine.route_plugins route) (as_often route n config.routes)
      ∙ ap (λ l. l ++ indexed ps (as_often route n config.routes))
          (indexed_grown engine.plugins (config ∷ []) (at engine.route_plugins route) a)
      ∙ ap (λ l. indexed engine.plugins (at engine.route_plugins route) ++ l)
          (indexed_last engine.plugins config (filter (λ r. text_eq r route) config.routes))

  loaded_from :
      (engine result : PolicyEngine) (configs : List PluginConfig)
      → InRange engine
      → load_from load engine configs ≡ ok result
      → plugins_for result route ≡ plugins_for engine route ++ named_by route configs
  unfolding load_from
  loaded_from engine result [] a h =
      let same : engine ≡ result = cc in
      ap (λ e. plugins_for e route) (sym same) ∙ sym (append-nil (plugins_for engine route))
  loaded_from engine result (config ∷ configs) a h =
      let (_, _, later) = >>=-eq-ok (load config) _ h in
      loaded_from (grown engine config) result configs (grown-InRange engine config a) later
      ∙ ap (λ l. l ++ named_by route configs) (plugins_for-grown engine config a)
      ∙ append_assoc (plugins_for engine route) (copies route config config.routes)
          (named_by route configs)

  -- The plugins of a route, after loading, are the configured ones that name it, in their order.
  pub plugins_for-new_engine :
      (configs : List PluginConfig) (result : PolicyEngine)
      → new_engine load configs ≡ ok result
      → plugins_for result route ≡ named_by route configs
  unfolding new_engine empty_engine plugins_for indexed
  plugins_for-new_engine configs result h = loaded_from empty_engine result configs tt h
