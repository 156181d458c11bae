-- ===== src/IdentityManager.antt =====
-- apps/runtime/citadel/agent_identity/identity.py: registration, authentication, verification and
-- revocation of agents. The keys, bcrypt and the digests are parameters; `none` for bcrypt is the
-- ImportError.
pub mod Auth
use Prim.Native.String.{len, slice}
use text.Mathlib.Text.{find?}
use ledger_sdk.Prelude.{
  ℕ, suc, ◌+◌, String, Bool, false, Option, none, some, List, ◌∷◌, ◌==◌, ◌<>◌, any, find_by, keep,
  update_where, count_where, sort_by, leb, has_text, show, truthy, or_else, starts_with,
  if◌then◌else◌,
}
use ledger_sdk.Exec.{Exec, Result, ok, raised, exn, value_error, ◌>>=◌, pure, lift, gets}

-- A row of agent_identities, with the two entries of its metadata that the statements write.
pub record AgentIdentity : Type 0 where
  pub agent_id : String
  pub tenant_id : String
  pub public_key : String
  pub secret_key_hash : String
  pub trust_level : String
  pub verification_status : String
  pub created_at : ℕ
  pub last_verified_at : Option ℕ
  pub verified_by : Option String
  pub revocation_reason : Option String

-- A row of agents, as a registration writes it.
pub record RegisteredAgent : Type 0 where
  pub agent_id : String
  pub tenant_id : String
  pub name : String
  pub status : String
  pub owner : String
  pub created_at : ℕ
  pub updated_at : ℕ

pub record AgentCredentials : Type 0 where
  pub agent_id : String
  pub secret_key : String
  pub public_key : String
  pub api_key : String

pub record Identities : Type 0 where
  pub identities : List AgentIdentity
  pub agents : List RegisteredAgent
  pub drawn : ℕ

pub record IdentityEnv : Type 0 where
  pub now : ℕ
  -- The public and the secret key of a draw.
  pub generate_keypair : ℕ → String × String
  pub hash_secret : ℕ → String → String
  pub generate_api_key : ℕ → String → String → String
  -- `hmac.new(salt, secret, sha256).hexdigest()`
  pub hmac : String → String → String
  pub checkpw : Option (String → String → Bool)

abbrev pub is_identity : String → AgentIdentity → Bool
is_identity id i = i.agent_id == id

abbrev is_registered : String → RegisteredAgent → Bool
is_registered id a = a.agent_id == id

-- The text after the first separator, if there is one, and the text before it.
abbrev cut : String → String → Option (String × String)
cut s c = elim (find? s c) [
  | none ↦ none
  | some i ↦ some (slice s 0 i, slice s (i + len c) (len s))
]

-- `_, salt, expected = hashed.split("$", 2)`; `none` is the ValueError of two parts.
abbrev salted : String → Option (String × String)
salted hashed = elim (cut hashed "$") [ none ↦ none | some (scheme, rest) ↦ cut rest "$" ]

unfoldable pub verify_secret : IdentityEnv → String → String → Result Bool
verify_secret env secret hashed =
    if starts_with hashed "hmac$"
    then elim (salted hashed) [
      | none ↦ raised (exn value_error "not enough values to unpack (expected 3, got 2)")
      | some (salt, expected) ↦ ok (env.hmac salt secret == expected)
    ]
    else elim env.checkpw [ none ↦ ok false | some check ↦ ok (check secret hashed) ]

abbrev new_identity : IdentityEnv → String → String → String → String → AgentIdentity
new_identity env id tenant public_key secret_hash = record {
  agent_id = id;
  tenant_id = tenant;
  public_key = public_key;
  secret_key_hash = secret_hash;
  trust_level = "unverified";
  verification_status = "pending";
  created_at = env.now;
  last_verified_at = none;
  verified_by = none;
  revocation_reason = none;
}

-- `ON CONFLICT (agent_id) DO UPDATE`: only the keys are replaced.
unfoldable pub upsert_identity : AgentIdentity → List AgentIdentity → List AgentIdentity
upsert_identity i rows =
    if any (is_identity i.agent_id) rows
    then update_where (is_identity i.agent_id)
        (λ (r : AgentIdentity). record r {
          public_key = i.public_key;
          secret_key_hash = i.secret_key_hash;
        })
        rows
    else i ∷ rows

unfoldable pub upsert_agent : RegisteredAgent → List RegisteredAgent → List RegisteredAgent
upsert_agent a rows =
    if any (is_registered a.agent_id) rows
    then update_where (is_registered a.agent_id)
        (λ (r : RegisteredAgent). record r {
          tenant_id = a.tenant_id;
          name = a.name;
          updated_at = a.updated_at;
        })
        rows
    else a ∷ rows

unfoldable pub register_agent :
    IdentityEnv → String → String → String → String → Exec Identities AgentCredentials
unfolding upsert_identity upsert_agent
register_agent env id tenant name owner w =
    let (public_key, secret_key) = env.generate_keypair w.drawn in
    let secret_hash = env.hash_secret w.drawn secret_key in
    (
      ok (record {
        agent_id = id;
        secret_key = secret_key;
        public_key = public_key;
        api_key = env.generate_api_key w.drawn id tenant;
      }),
      record {
        identities =
            upsert_identity (new_identity env id tenant public_key secret_hash) w.identities;
        agents =
            upsert_agent
              (record {
                agent_id = id;
                tenant_id = tenant;
                name = name;
                status = "healthy";
                owner = owner;
                created_at = env.now;
                updated_at = env.now;
              })
              w.agents;
        drawn = suc w.drawn;
      },
    )

unfoldable pub get_identity : String → Exec Identities (Option AgentIdentity)
get_identity id = gets (λ (w : Identities). find_by (is_identity id) w.identities)

abbrev known_secret : AgentIdentity → Bool → Option AgentIdentity
known_secret i same = if same then some i else none

unfoldable pub authenticate_agent :
    IdentityEnv → String → String → Exec Identities (Option AgentIdentity)
unfolding get_identity verify_secret ◌>>=◌
authenticate_agent env id secret = do
  row ← get_identity id
  elim row [
    | none ↦ pure none
    | some i ↦ do
      same ← lift (verify_secret env secret i.secret_key_hash)
      pure (known_secret i same)
  ]

-- `"UPDATE 1" in result`
abbrev one_row : ℕ → Bool
one_row n = has_text ("UPDATE " <> show n) "UPDATE 1"

abbrev change_identity : String → (AgentIdentity → AgentIdentity) → Exec Identities Bool
change_identity id f w = (
  ok (one_row (count_where (is_identity id) w.identities)),
  record w { identities = update_where (is_identity id) f w.identities },
)

unfoldable pub verify_agent : IdentityEnv → String → String → Exec Identities Bool
verify_agent env id verifier_id = change_identity id (λ (i : AgentIdentity). record i {
  verification_status = "verified";
  trust_level = "standard";
  last_verified_at = some env.now;
  verified_by = some verifier_id;
})

unfoldable pub revoke_agent : String → String → Exec Identities Bool
revoke_agent id reason = change_identity id (λ (i : AgentIdentity). record i {
  verification_status = "revoked";
  trust_level = "revoked";
  revocation_reason = some reason;
})

abbrev later_first : AgentIdentity → AgentIdentity → Bool
later_first a b = leb b.created_at a.created_at

unfoldable pub list_identities : Option String → Exec Identities (List AgentIdentity)
list_identities tenant_id = gets (λ (w : Identities).
    if truthy tenant_id
    then sort_by later_first
        (keep (λ (i : AgentIdentity). i.tenant_id == or_else tenant_id "") w.identities)
    else sort_by later_first w.identities)
