-- ===== src/Platform/Ends.antt =====
-- How an action ends in a given state: a property of its result and of the state after, with a rule
-- for each way in which actions are built. A rule for a test hands on what the test found.
use omps_admin_plugin_accoun.Prelude.{
  ◌≡◌, refl, Option, none, some, Bool, true, false, if◌then◌else◌,
}
use omps_admin_plugin_accoun.Prelude.Exec.{Exec, pure, ◌>>=◌, on_none, on_some}
use omps_admin_plugin_accoun.Account.{Error, Result, ok, fail, on_error}
use omps_admin_plugin_accoun.Platform.{Env, World}
use omps_admin_plugin_accoun.Platform.Keeps.{Keeps}

pub record Ends {ι} {env : Env} {A : Type 0} (P : A → World env → Type ι) (m : Exec (World env) A)
    (w : World env) : Type ι where
  pub at : P (m w).0 (m w).1

module _ {ι} {env : Env} {B : Type 0} {P : B → World env → Type ι} {w : World env} where
  pub Ends-pure : (b : B) → P b w → Ends P (pure b) w
  unfolding pure
  Ends-pure b p = record { at = p }

  pub Ends-if :
      (t : Bool) (m n : Exec (World env) B)
      → (t ≡ true → Ends P m w)
      → (t ≡ false → Ends P n w)
      → Ends P (if t then m else n) w
  Ends-if true m n p q = p refl
  Ends-if false m n p q = q refl

  -- The second action begins where the first one ends.
  pub Ends-bind :
      {A : Type 0} (m : Exec (World env) A) (f : A → Exec (World env) B)
      → Ends P (f (m w).0) (m w).1
      → Ends P (m >>= f) w
  unfolding ◌>>=◌
  Ends-bind m f p = record { at = p.at }

  pub Ends-on_none :
      {A : Type 0} (o : Option A) (n : Exec (World env) B) (k : A → Exec (World env) B)
      → (o ≡ none → Ends P n w)
      → ((a : A) → o ≡ some a → Ends P (k a) w)
      → Ends P (on_none o n k) w
  unfolding on_none
  Ends-on_none none n k p q = p refl
  Ends-on_none (some a) n k p q = q a refl

  pub Ends-on_some :
      {A : Type 0} (o : Option A) (k : A → Exec (World env) B) (n : Exec (World env) B)
      → ((a : A) → o ≡ some a → Ends P (k a) w)
      → (o ≡ none → Ends P n w)
      → Ends P (on_some o k n) w
  unfolding on_some
  Ends-on_some none k n p q = q refl
  Ends-on_some (some a) k n p q = p a refl

  pub Ends-on_error :
      {A : Type 0} (x : Result A) (f : Error → Exec (World env) B) (k : A → Exec (World env) B)
      → ((e : Error) → x ≡ fail e → Ends P (f e) w)
      → ((a : A) → x ≡ ok a → Ends P (k a) w)
      → Ends P (on_error x f k) w
  unfolding on_error
  Ends-on_error (ok a) f k p q = q a refl
  Ends-on_error (fail e) f k p q = p e refl

-- An action that keeps every predicate on the maps it reads leaves them as they are.
pub accounts-unchanged :
    {env : Env} {A : Type 0} (m : Exec (World env) A) (w : World env)
    → Keeps (λ maps. maps.accounts ≡ w.accounts) m
    → (m w).1.accounts ≡ w.accounts
accounts-unchanged m w k = k.at w refl

pub ruleset ends_rules = (Ends-pure, Ends-if, Ends-bind, Ends-on_none, Ends-on_some, Ends-on_error)
