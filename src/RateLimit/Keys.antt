-- ===== src/RateLimit/Keys.antt =====
-- apps/runtime/citadel/middleware/rate_limit.py: a key names its category, so that requests with
-- one key are measured by one configuration.
use Prim.Native.String.{len, slice}
use text.Mathlib.TextPositions.{slice-append_left}
use text.Mathlib.TextLemmas.{append_assoc, append_cancel_left}
use ledger_sdk.Prelude.{
  ℕ, String, List, [], ◌∷◌, ◌≡◌, ◌∙◌, sym, ap, refl, ◌<>◌, ◌==◌, starts_with, All, if◌then◌else◌,
  inl, inr, Bool-cases, truthy, or_else,
}
use ledger_sdk.RateLimit.{
  Request, RateLimitConfig, limits, get_key, client_ip, category_in, get_category, config_for,
  path_categories,
}

-- The first three letters of a category tell it.
config_by : String → RateLimitConfig
config_by front =
    if front == "aut"
    then limits 5 60 3
    else if front == "api"
    then limits 100 60 20
    else if front == "web"
    then limits 1000 60 100
    else limits 60 60 10

abbrev Known : String → Type 0
Known c =
    (front : String) × (back : String) × (c ≡ front <> back)
    × (len front ≡ 3)
    × (config_for c ≡ config_by front)

Known-category_in :
    (cs : List (String × String)) (path : String)
    → Known "default"
    → All (λ (e : String × String). Known e.1) cs
    → Known (category_in cs path)
unfolding category_in
Known-category_in [] path base all = base
Known-category_in ((prefix, c) ∷ cs) path base (here, all) =
    elim (Bool-cases (starts_with path prefix)) [
      | inl e ↦ rw e here
      | inr e ↦ rw e (Known-category_in cs path base all)
    ]

auth_Known : Known "auth"
unfolding config_for config_by
auth_Known = ("aut", "h", refl, refl, refl)

api_Known : Known "api"
unfolding config_for config_by
api_Known = ("api", "", refl, refl, refl)

webhook_Known : Known "webhook"
unfolding config_for config_by
webhook_Known = ("web", "hook", refl, refl, refl)

default_Known : Known "default"
unfolding config_for config_by
default_Known = ("def", "ault", refl, refl, refl)

get_category-Known : (path : String) → Known (get_category path)
unfolding get_category
get_category-Known path =
    Known-category_in path_categories path default_Known
      (auth_Known, (webhook_Known, (api_Known, (api_Known, (api_Known, tt)))))

key_tail : Request → String
key_tail r =
    if truthy r.tenant_id then ":tenant:" <> or_else r.tenant_id "" else ":ip:" <> client_ip r

get_key-tail : (r : Request) (c : String) → get_key r c ≡ "ratelimit:" <> c <> key_tail r
unfolding get_key key_tail
get_key-tail r c = elim (Bool-cases (truthy r.tenant_id)) [ inl e ↦ rw e | inr e ↦ rw e ]

same_front : (s t x y : String) → len s ≡ 3 → len t ≡ 3 → s <> x ≡ t <> y → s ≡ t
same_front s t x y p q h =
    sym (slice-append_left s x)
    ∙ ap (λ (n : ℕ). slice (s <> x) 0 n) (p ∙ sym q)
    ∙ ap (λ (u : String). slice u 0 (len t)) h
    ∙ slice-append_left t y

same_config :
    (c d x y : String)
    → Known c
    → Known d
    → "ratelimit:" <> c <> x ≡ "ratelimit:" <> d <> y
    → config_for c ≡ config_for d
same_config c d x y (s, s', cs, ls, fs) (t, t', dt, lt, ft) h =
    fs
    ∙ ap config_by (
        same_front s t (s' <> x) (t' <> y) ls lt (
          sym (append_assoc s s' x)
          ∙ ap (λ (u : String). u <> x) (sym cs)
          ∙ append_cancel_left "ratelimit:" (c <> x) (d <> y) h
          ∙ ap (λ (u : String). u <> y) dt
          ∙ append_assoc t t' y))
    ∙ sym ft

-- Requests of one key have one configuration.
pub get_key-config :
    (r r' : Request)
    → get_key r' (get_category r'.path) ≡ get_key r (get_category r.path)
    → config_for (get_category r'.path) ≡ config_for (get_category r.path)
get_key-config r r' h =
    same_config (get_category r'.path) (get_category r.path) (key_tail r') (key_tail r)
      (get_category-Known r'.path) (get_category-Known r.path)
      (sym (get_key-tail r' (get_category r'.path)) ∙ h ∙ get_key-tail r (get_category r.path))
