-- ===== src/Tests/Fixture.antt =====
-- The environment, the accounts and the requests of the tests.
use Prim.Native.String.{len}
use mathlib.Core.List.{Memᴰ}
use mathlib.Core.Option.{none-ne-some}
use omps_admin_plugin_accoun.Prelude.{
  ℕ, zero, suc, ◌+◌, ◌%◌, String, ◌≡◌, sym, ap, ◌∙◌, ◌⊎◌, true, false, none, some, List, [], ◌∷◌,
  arith, ◌==◌, eq_iff, Bool-cases, inl, inr,
}
use omps_admin_plugin_accoun.Prelude.Int.{pos}
use omps_admin_plugin_accoun.Prelude.Text.{trim_space}
use omps_admin_plugin_accoun.Prelude.Dict.{Dict, lookup, values}
use omps_admin_plugin_accoun.Account.{AccountRecord, zero_account, ok}
use omps_admin_plugin_accoun.Platform.{Request, Env, World}
use omps_admin_plugin_accoun.Storage.Created.{RangesAll}
use omps_admin_plugin_accoun.Handlers.Invariants.{IsWellFormed}

-- `n` bytes that count up.
abbrev pub bytes : ℕ → ℕ → List ℕ
bytes zero b = []
bytes (suc n) b = b % 256 ∷ bytes n (suc b)

-- The state outside is the reading of the clock.
abbrev pub env : Env
env = record {
  Outside = ℕ;
  Tx = ℕ;
  db = none;
  rdb = none;
  internal_request = some (λ method target payload headers o. (ok (pos 200, target), o));
  lookup_project_admin_session = none;
  push = none;
  emit = some (λ user code fields o. (true, o + 1));
  session_ttl = pos 3600000000000;
  admin_api_key = "key";
  now = λ o. (pos o, o + 1);
  read_random = λ n o. (some (bytes n o), o + 1);
  range_accounts = λ m o. (values m, o);
  range_codes = λ codes o. (codes, o);
  format_time = λ t. "now";
  format_duration = λ t. "1s";
  to_lower = λ s. s;
  sha256 = λ s. len s % 256 ∷ [];
  query_escape = λ s. s;
  marshal = λ body. ok "body";
  unmarshal_response = λ text. ok (record { status = pos 0; payload = text });
  unmarshal_detail = λ text.
      ok (record { role_id = "role0001"; status = "enabled"; deleted_at = ""; permissions = [] });
  unmarshal_check = λ text. ok (record { allowed = true; role_status = "enabled" });
  getenv = λ name. "internal";
  sort_strings = λ ss. ss;
  sort_slice = λ less items. items;
}

abbrev pub root : AccountRecord
root = record zero_account {
  id = "admin001";
  username = "root";
  status = "enabled";
  is_super_admin = true;
}

abbrev pub clerk : AccountRecord
clerk = record zero_account { id = "clerk001"; username = "clerk"; status = "enabled" }

abbrev pub accounts : Dict AccountRecord
accounts = ("admin001", root) ∷ ("clerk001", clerk) ∷ []

abbrev pub start : World env
start = record {
  maps = record {
    accounts = accounts;
    roles = ("admin001", "role0001" ∷ []) ∷ ("clerk001", "role0002" ∷ []) ∷ [];
  };
  outside = 7;
}

-- A request of the account `root`, which the header names.
abbrev pub request : Request
request = record { headers = ("X-Account-ID", "admin001") ∷ []; query = [] }

lookup-values :
    (m : Dict AccountRecord) (k : String) (acc : AccountRecord)
    → lookup k m ≡ some acc
    → Memᴰ acc (values m)
unfolding lookup
lookup-values [] k acc h = elim (none-ne-some acc h) [ ]
lookup-values ((j, a) ∷ m) k acc h = elim (Bool-cases (j == k)) [
  | inl e ↦ Memᴰ.head (ground (arith, h, e))
  | inr e ↦ Memᴰ.tail (lookup-values m k acc (ground (arith, h, e)))
]

pub env-RangesAll : RangesAll env
env-RangesAll m o k acc h = lookup-values m k acc h

-- The two entries of the map.
abbrev Entry : String → AccountRecord → Type 0
Entry k acc = ((k ≡ "admin001") × (acc ≡ root)) ⊎ ((k ≡ "clerk001") × (acc ≡ clerk))

entry : (k : String) (acc : AccountRecord) → lookup k accounts ≡ some acc → Entry k acc
unfolding lookup
entry k acc h = elim (Bool-cases ("admin001" == k)) [
  | inl e ↦ inl (sym ((eq_iff "admin001" k).0 e), ground (arith, h, e))
  | inr e ↦ elim (Bool-cases ("clerk001" == k)) [
    | inl e' ↦ inr (sym ((eq_iff "clerk001" k).0 e'), ground (arith, h, e, e'))
    | inr e' ↦ elim (none-ne-some acc (ground (arith, h, e, e'))) [ ]
  ]
]

own_key : (k : String) (acc : AccountRecord) → Entry k acc → (acc.id ≡ k) × (trim_space k ≡ k)
unfolding trim_space
own_key k acc (inl (e, e')) = (ap (λ a. a.id) e' ∙ sym e, ap trim_space e ∙ sym e)
own_key k acc (inr (e, e')) = (ap (λ a. a.id) e' ∙ sym e, ap trim_space e ∙ sym e)

one_key :
    (j k : String) (a b : AccountRecord) → Entry j a → Entry k b → a.username ≡ b.username → j ≡ k
one_key j k a b (inl (e, _)) (inl (e', _)) u = e ∙ sym e'
one_key j k a b (inl (_, e)) (inr (_, e')) u =
    let f : false ≡ true =
      (eq_iff "root" "clerk").1 (sym (ap (λ a. a.username) e) ∙ u ∙ ap (λ a. a.username) e') in
    ground (arith, f)
one_key j k a b (inr (_, e)) (inl (_, e')) u =
    let f : false ≡ true =
      (eq_iff "clerk" "root").1 (sym (ap (λ a. a.username) e) ∙ u ∙ ap (λ a. a.username) e') in
    ground (arith, f)
one_key j k a b (inr (e, _)) (inr (e', _)) u = e ∙ sym e'

pub accounts-IsWellFormed : IsWellFormed accounts
accounts-IsWellFormed = record {
  keyed = λ k acc h. own_key k acc (entry k acc h);
  unique = λ j k a b h h' u. one_key j k a b (entry j a h) (entry k b h') u;
}
