-- ===== src/Platform/Keeps.antt =====
-- Predicates on the plugin's maps that an action keeps, whatever it returns: a rule for each way in
-- which actions are built.
use omps_admin_plugin_accoun.Prelude.{
  ◌≡◌, refl, Option, none, some, Bool, true, false, if◌then◌else◌,
}
use omps_admin_plugin_accoun.Prelude.Dict.{Dict}
use omps_admin_plugin_accoun.Prelude.Exec.{Exec, pure, ◌>>=◌, on_none, on_some}
use omps_admin_plugin_accoun.Account.{AccountRecord, Error, Result, ok, fail, on_error}
use omps_admin_plugin_accoun.Platform.{Env, Maps, World, call}

pub record Keeps {ι} {env : Env} {A : Type 0} (Q : Maps → Type ι) (m : Exec (World env) A)
    : Type ι where
  pub at : (w : World env) → Q w.maps → Q (m w).1.maps

-- A predicate on the accounts alone.
abbrev pub OnAccounts {ι} : (Dict AccountRecord → Type ι) → Maps → Type ι
OnAccounts R maps = R maps.accounts

module _ {ι} {env : Env} {B : Type 0} {Q : Maps → Type ι} where
  pub Keeps-pure : (b : B) → Keeps Q (pure {S = World env} b)
  unfolding pure
  Keeps-pure b = record { at = λ w h. h }

  pub Keeps-call : (m : Exec env.Outside B) → Keeps {env = env} Q (call m)
  unfolding call
  Keeps-call m = record { at = λ w h. h }

  pub Keeps-if :
      (t : Bool) (m n : Exec (World env) B) → Keeps Q m → Keeps Q n → Keeps Q (if t then m else n)
  Keeps-if true m n p q = p
  Keeps-if false m n p q = q

  pub Keeps-bind :
      {A : Type 0} (m : Exec (World env) A) (f : A → Exec (World env) B)
      → Keeps Q m
      → ((a : A) → Keeps Q (f a))
      → Keeps Q (m >>= f)
  unfolding ◌>>=◌
  Keeps-bind m f p q = record { at = λ w h. (q (m w).0).at (m w).1 (p.at w h) }

  pub Keeps-gets : (f : World env → B) → Keeps {env = env} Q (λ w. (f w, w))
  Keeps-gets f = record { at = λ w h. h }

  -- An action that first reads the state.
  pub Keeps-get :
      (f : World env → Exec (World env) B)
      → ((w : World env) → Keeps Q (f w))
      → Keeps Q (λ w. f w w)
  Keeps-get f p = record { at = λ w h. (p w).at w h }

  pub Keeps-on_none :
      {A : Type 0} (o : Option A) (n : Exec (World env) B) (k : A → Exec (World env) B)
      → Keeps Q n
      → ((a : A) → Keeps Q (k a))
      → Keeps Q (on_none o n k)
  unfolding on_none
  Keeps-on_none none n k p q = p
  Keeps-on_none (some a) n k p q = q a

  -- With what the test found.
  pub Keeps-on_found :
      {A : Type 0} (o : Option A) (n : Exec (World env) B) (k : A → Exec (World env) B)
      → Keeps Q n
      → ((a : A) → o ≡ some a → Keeps Q (k a))
      → Keeps Q (on_none o n k)
  unfolding on_none
  Keeps-on_found none n k p q = p
  Keeps-on_found (some a) n k p q = q a refl

  pub Keeps-on_some :
      {A : Type 0} (o : Option A) (k : A → Exec (World env) B) (n : Exec (World env) B)
      → ((a : A) → Keeps Q (k a))
      → Keeps Q n
      → Keeps Q (on_some o k n)
  unfolding on_some
  Keeps-on_some none k n p q = q
  Keeps-on_some (some a) k n p q = p a

  pub Keeps-on_error :
      {A : Type 0} (x : Result A) (f : Error → Exec (World env) B) (k : A → Exec (World env) B)
      → ((e : Error) → Keeps Q (f e))
      → ((a : A) → Keeps Q (k a))
      → Keeps Q (on_error x f k)
  unfolding on_error
  Keeps-on_error (ok a) f k p q = q a
  Keeps-on_error (fail e) f k p q = p e

pub ruleset keeps_rules =
    (Keeps-pure, Keeps-call, Keeps-if, Keeps-bind, Keeps-on_none, Keeps-on_some, Keeps-on_error)
