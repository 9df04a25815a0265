-- ===== src/Selftest/Render.antt =====
-- The templates of selftest.go: within a case a placeholder stands for one value.
use mathlib.Core.Option.{none-ne-some}
use omps_admin_plugin_accoun.Prelude.{
  String, ◌<>◌, ◌≡◌, refl, sym, ap, subst, ◌∙◌, Bool, none, some, List, [], ◌∷◌, arith, ◌==◌,
  eq_iff, if◌then◌else◌, Bool-cases, inl, inr, All,
}
use omps_admin_plugin_accoun.Prelude.Dict.{
  Dict, lookup, insert, get_or, lookup-insert, lookup-insert_same,
}
use omps_admin_plugin_accoun.Prelude.Exec.{pure, ◌>>=◌, on_some}
use omps_admin_plugin_accoun.Platform.{Env, World}
use omps_admin_plugin_accoun.Platform.Ends.{Ends, Ends-pure, Ends-bind, Ends-on_some}
use omps_admin_plugin_accoun.Selftest.Template.{
  TemplateVars, Placeholder, Token, literal, placeholder, key_of, tokens, resolve_template_name,
  resolve_cached, apply_tokens, apply_template_vars,
}

-- Every value of one cache is in the other.
pub record Extends (old new : Dict String) : Type 0 where
  pub kept : (key value : String) → lookup key old ≡ some value → lookup key new ≡ some value

pub Extends-refl : (c : Dict String) → Extends c c
Extends-refl c = record { kept = λ key value h. h }

pub Extends-trans : (a b c : Dict String) → Extends a b → Extends b c → Extends a c
Extends-trans a b c e f = record { kept = λ key value h. f.kept key value (e.kept key value h) }

-- A new key keeps what was there.
Extends-insert :
    (key value : String) (c : Dict String) → lookup key c ≡ none → Extends c (insert key value c)
Extends-insert key value c absent = record {
  kept = λ asked x h. elim (Bool-cases (key == asked)) [
    | inl e ↦
        elim (none-ne-some x (sym absent ∙ ap (λ k. lookup k c) ((eq_iff key asked).0 e) ∙ h)) [ ]
    | inr e ↦ lookup-insert key asked value c ∙ ground (arith, e, h)
  ];
}

-- The text that the values of a cache make of the tokens.
abbrev pub render : Dict String → List Token → String
render c [] = ""
render c (literal x ∷ ts) = String.◌∷◌ x (render c ts)
render c (placeholder p ∷ ts) = get_or "" (key_of p) c <> render c ts

-- The cache has a value for the token.
abbrev HasValue : Dict String → Token → Type 0
HasValue c (literal x) = Unit
HasValue c (placeholder p) = (value : String) × (lookup (key_of p) c ≡ some value)

get_or-some :
    (key value : String) (c : Dict String) → lookup key c ≡ some value → get_or "" key c ≡ value
unfolding get_or
get_or-some key value c h = ap (λ o. elim o [ none ↦ "" | some v ↦ v ]) h

-- More values do not change the text.
render-Extends :
    (ts : List Token) (old new : Dict String)
    → All (HasValue old) ts
    → Extends old new
    → render new ts ≡ render old ts
render-Extends [] old new has e = refl
render-Extends (literal x ∷ ts) old new has e =
    ap (String.◌∷◌ x) (render-Extends ts old new has.1 e)
render-Extends (placeholder p ∷ ts) old new ((value, h), has) e =
    ap (λ s. s <> render new ts)
      (get_or-some (key_of p) value new (e.kept _ _ h) ∙ sym (get_or-some (key_of p) value old h))
    ∙ ap (λ s. get_or "" (key_of p) old <> s) (render-Extends ts old new has e)

HasValue-Extends :
    (ts : List Token) (old new : Dict String)
    → All (HasValue old) ts
    → Extends old new
    → All (HasValue new) ts
HasValue-Extends [] old new has e = tt
HasValue-Extends (literal x ∷ ts) old new has e = (tt, HasValue-Extends ts old new has.1 e)
HasValue-Extends (placeholder p ∷ ts) old new ((value, h), has) e =
    ((value, e.kept _ _ h), HasValue-Extends ts old new has e)

-- What an expansion of tokens leaves: the text that its cache makes of them, and a cache that has a
-- value for each and every value of before.
record Expanded (ts : List Token) (old : Dict String) (r : String × TemplateVars) : Type 0 where
  text : r.0 ≡ render r.1.cache ts
  has : All (HasValue r.1.cache) ts
  grown : Extends old r.1.cache

-- What the look-up of one placeholder leaves.
record Resolved (p : Placeholder) (old : Dict String) (r : String × TemplateVars) : Type 0 where
  cached : lookup (key_of p) r.1.cache ≡ some r.0
  grown : Extends old r.1.cache

module _ (env : Env) where
  resolve_cached-Resolved :
      (p : Placeholder) (v : TemplateVars) (w : World env)
      → Resolved p v.cache (resolve_cached env p v w).0
  unfolding resolve_cached
  resolve_cached-Resolved p v w =
      let go : Ends (λ r _. Resolved p v.cache r) (resolve_cached env p v) w =
        (Ends-on_some _ _ _
          (λ value h. Ends-pure _ (record { cached = h; grown = Extends-refl v.cache }))
          λ h. Ends-bind _ _ (
            Ends-pure _ (record {
              cached = lookup-insert_same (key_of p) _ v.cache;
              grown = Extends-insert (key_of p) _ v.cache h;
            }))) in
      go.at

  apply_tokens-Expanded :
      (ts : List Token) (v : TemplateVars) (w : World env)
      → Expanded ts v.cache (apply_tokens env ts v w).0
  unfolding apply_tokens ◌>>=◌ pure
  apply_tokens-Expanded [] v w = record { text = refl; has = tt; grown = Extends-refl v.cache }
  apply_tokens-Expanded (literal x ∷ ts) v w =
      let rest = apply_tokens-Expanded ts v w in
      record { text = ap (String.◌∷◌ x) rest.text; has = (tt, rest.has); grown = rest.grown }
  apply_tokens-Expanded (placeholder p ∷ ts) v w =
      let first = resolve_cached-Resolved p v w in
      let value = resolve_cached env p v w in
      let rest = apply_tokens-Expanded ts value.0.1 value.1 in
      let still = rest.grown.kept _ _ first.cached in
      record {
        text =
            ap (λ s. value.0.0 <> s) rest.text
            ∙ ap (λ s. s <> render (apply_tokens env ts value.0.1 value.1).0.1.cache ts)
                (sym (get_or-some (key_of p) value.0.0 _ still));
        has = ((value.0.0, still), rest.has);
        grown = Extends-trans _ _ _ first.grown rest.grown;
      }

  -- Where every value is cached, the cache gives the text and nothing else happens.
  apply_tokens-cached :
      (ts : List Token) (v : TemplateVars) (w : World env)
      → All (HasValue v.cache) ts
      → apply_tokens env ts v w ≡ ((render v.cache ts, v), w)
  unfolding apply_tokens resolve_cached on_some ◌>>=◌ pure
  apply_tokens-cached [] v w has = refl
  apply_tokens-cached (literal x ∷ ts) v w has =
      ap (λ r. ((String.◌∷◌ x r.0.0, r.0.1), r.1)) (apply_tokens-cached ts v w has.1)
  apply_tokens-cached (placeholder p ∷ ts) v w ((value, h), has) =
      ap
        (λ o.
          let first = on_some o (λ cached. pure (cached, v)) (missing_value p v) w in
          let rest = apply_tokens env ts first.0.1 first.1 in
          ((first.0.0 <> rest.0.0, rest.0.1), rest.1))
        h
      ∙ ap (λ r. ((value <> r.0.0, r.0.1), r.1)) (apply_tokens-cached ts v w has)
      ∙ ap (λ s. ((s <> render v.cache ts, v), w)) (sym (get_or-some (key_of p) value v.cache h))
    where
      missing_value :
          (p : Placeholder) (v : TemplateVars) (w : World env) → (String × TemplateVars) × World env
      missing_value p v = do
        value ← resolve_template_name env p v
        pure (value, record v { cache = insert (key_of p) value v.cache })

  apply_template_vars-tokens :
      (s : String) (v : TemplateVars) (w : World env)
      → apply_template_vars env s v w ≡ apply_tokens env (tokens 0 s) v w
  unfolding apply_template_vars apply_tokens tokens pure
  apply_template_vars-tokens s v w =
      let of_test : Bool → (String × TemplateVars) × World env =
        λ b. (if b then pure (s, v) else apply_tokens env (tokens 0 s) v) w in
      elim (Bool-cases (s == "")) [
        | inl e ↦
            ap of_test e
            ∙ subst (λ t. ((t, v), w) ≡ apply_tokens env (tokens 0 t) v w) (sym ((eq_iff s "").0 e))
                refl
        | inr e ↦ ap of_test e
      ]

  apply_template_vars-Extends :
      (s : String) (v : TemplateVars) (w : World env)
      → Extends v.cache (apply_template_vars env s v w).0.1.cache
  apply_template_vars-Extends s v w =
      rw (apply_template_vars-tokens s v w) (apply_tokens-Expanded (tokens 0 s) v w).grown

  -- The variables and the state after other texts were expanded, one after the other.
  abbrev pub after_texts : List String → TemplateVars → World env → TemplateVars × World env
  after_texts [] v w = (v, w)
  after_texts (t ∷ ts) v w =
      let (expanded, w') = apply_template_vars env t v w in after_texts ts expanded.1 w'

  after_texts-Extends :
      (ts : List String) (v : TemplateVars) (w : World env)
      → Extends v.cache (after_texts ts v w).0.cache
  after_texts-Extends [] v w = Extends-refl v.cache
  after_texts-Extends (t ∷ ts) v w =
      let expanded = apply_template_vars env t v w in
      Extends-trans _ _ _ (apply_template_vars-Extends t v w)
        (after_texts-Extends ts expanded.0.1 expanded.1)

  -- With every value of an expansion cached, the same text comes to the same.
  apply_template_vars-cached :
      (s : String) (v v' : TemplateVars) (w w' : World env)
      → Extends (apply_template_vars env s v w).0.1.cache v'.cache
      → apply_template_vars env s v' w' ≡ (((apply_template_vars env s v w).0.0, v'), w')
  apply_template_vars-cached s v v' w w' later =
      let ts = tokens 0 s in
      let first = apply_tokens-Expanded ts v w in
      let e = apply_template_vars-tokens s v w in
      let still = subst (λ r. Extends r.0.1.cache v'.cache) e later in
      apply_template_vars-tokens s v' w'
      ∙ apply_tokens-cached ts v' w' (HasValue-Extends ts _ _ first.has still)
      ∙ ap (λ t. ((t, v'), w'))
          (render-Extends ts _ _ first.has still ∙ sym first.text ∙ sym (ap (λ r. r.0.0) e))

  -- Once applyTemplateVars has expanded a text, it expands that text to the same result again with
  -- the variables that it left, whatever other texts were expanded in between and whatever
  -- happened outside, and then neither the variables nor anything else changes: within a case a
  -- placeholder stands for one value.
  pub apply_template_vars-repeats :
      (s : String) (between : List String) (v : TemplateVars) (w w' w'' : World env)
      → let first = (apply_template_vars env s v w).0 in
        let later = (after_texts between first.1 w').0 in
        apply_template_vars env s later w'' ≡ ((first.0, later), w'')
  apply_template_vars-repeats s between v w w' w'' =
      let first = (apply_template_vars env s v w).0 in
      apply_template_vars-cached s v (after_texts between first.1 w').0 w w''
        (after_texts-Extends between first.1 w')
