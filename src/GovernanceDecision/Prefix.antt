-- ===== src/GovernanceDecision/Prefix.antt =====
-- apps/runtime/citadel/tokens/governance_decision.py, DecisionScope.covers: a pattern with a star at
-- its end names all that the patterns with the same front name.
use ledger_sdk.Prelude.{
  ℕ, List, [], ◌∷◌, String, true, ◌∷◌, ◌++◌, codes, drop_last, starts_with, ◌<>◌, ◌≡◌, sym, ap, ◌∙◌,
}
use Prim.Native.Char.{code}
use Prim.Native.String.append
use mathlib.Core.Path.{subst}
use text.Mathlib.TextEquality.{starts_with_iff}
use ledger_sdk.GovernanceDecision.Glob.Prefix.{glob_prefix}
use ledger_sdk.GovernanceDecision.Glob.Matching.{
  finish, same, Matches, Matches-glob, glob-Matches, star_all,
}
use ledger_sdk.GovernanceDecision.Coverage.{Names}

codes-append : (s t : String) → codes (s <> t) ≡ codes s ++ codes t
unfolding codes
codes-append String.[] t = ap codes (append.nil t)
codes-append (String.◌∷◌ c s) t =
    ap codes (append.cons c s t) ∙ ap (λ u. code c ∷ u) (codes-append s t)

pub Names-star : (name : String) → Names name "*"
unfolding codes
Names-star name = star_all (codes name)

-- The front of `p` stands at the front of `c`.
pub Names-prefix :
    (name c p : String)
    → starts_with c (drop_last 1 p) ≡ true
    → drop_last 1 p <> "*" ≡ p
    → Names name c
    → Names name p
unfolding codes
Names-prefix name c p h e m =
    let (rest, whole) = (starts_with_iff c (drop_last 1 p)).0 h in
    subst (λ q. Matches (codes q) (codes name)) e
      (subst (λ q. Matches q (codes name)) (sym (codes-append (drop_last 1 p) "*"))
        (glob-Matches _ (codes name) (
          glob_prefix (codes (drop_last 1 p)) (codes rest) (codes name) (
            Matches-glob (
              subst (λ q. Matches q (codes name)) (codes-append (drop_last 1 p) rest)
                (subst (λ q. Matches (codes q) (codes name)) (sym whole) m))))))

-- A pattern names itself, its stars and question marks included.
Matches-self : (cs : List ℕ) → Matches cs cs
Matches-self [] = finish
Matches-self (c ∷ cs) = same (Matches-self cs)

pub Names-self : (name : String) → Names name name
Names-self name = Matches-self (codes name)
