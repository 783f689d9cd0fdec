-- ===== src/Config/Entries.antt =====
-- Which environments and arguments of a project are accepted, and what they become.
use wterm.Prelude.{
  ◌≡◌, refl, ap, ap₂, ◌∙◌, ◌↔◌, true, Option, none, some, [], ◌∷◌, All, Text, Bool-cases, inl, inr,
  nat_key, list_key,
}
use wterm.Json
use wterm.Json.{Json, Items, Members}
use wterm.OrderedDict.{OrderedDict}
use wterm.Config.{is_env_entry, env_value, cons_entry, env_entries, project_env}

-- The object that a dictionary of texts is written as.
abbrev pub env_object : OrderedDict Text Text → Members
env_object [] = Json.end
env_object ((key, value) ∷ env) = Json.member key (Json.str value) (env_object env)

-- A name of letters, digits and underscores, not TERM, with a value without NUL.
abbrev pub IsEnvEntry : Text × Text → Type 0
IsEnvEntry (key, value) = is_env_entry key value ≡ true

env_value-str :
    (key value : Text) (v : Json)
    → env_value key v ≡ some value
    → (v ≡ Json.str value) × (is_env_entry key value ≡ true)
unfolding env_value
env_value-str key value (Json.str t) h = elim (Bool-cases (is_env_entry key t)) [
  | inl fine ↦ (let same : some t ≡ some value = (rw (fine, env_value) at h) in (cc, cc))
  | inr bad ↦ absurd (let no : none ≡ some value = (rw (bad, env_value) at h) in cc)
]
env_value-str key value Json.null h = absurd (cc)
env_value-str key value (Json.bool b) h = absurd (cc)
env_value-str key value (Json.int n) h = absurd (cc)
env_value-str key value Json.float h = absurd (cc)
env_value-str key value (Json.array items) h = absurd (cc)
env_value-str key value (Json.object members) h = absurd (cc)

pub cons_entry-some {ℓ} :
    {A : Type ℓ} (key : Text) (value : Option A) (rest : Option (OrderedDict Text A))
    (d : OrderedDict Text A)
    → cons_entry key value rest ≡ some d
    → (v : A) × (r : OrderedDict Text A) × (value ≡ some v) × (rest ≡ some r) × (d ≡ (key, v) ∷ r)
cons_entry-some key none rest d h = absurd (cc)
cons_entry-some key (some v) none d h = absurd (cc)
cons_entry-some key (some v) (some r) d h = (v, r, refl, refl, cc)

env_entries-object :
    (members : Members) (env : OrderedDict Text Text)
    → env_entries members ≡ some env
    → (members ≡ env_object env) × All IsEnvEntry env
unfolding env_entries
env_entries-object Json.end [] h = (refl, tt)
env_entries-object Json.end (e ∷ env) h = absurd (cc)
env_entries-object (Json.member key value rest) env h =
    let (v, r, first, others, whole) =
      cons_entry-some key (env_value key value) (env_entries rest) env h in
    let (text, fine) = env_value-str key v value first in
    let (object, all_fine) = env_entries-object rest r others in
    rw whole (ap₂ (λ x y. Json.member key x y) text object, (fine, all_fine))

env_object-entries :
    (env : OrderedDict Text Text) → All IsEnvEntry env → env_entries (env_object env) ≡ some env
unfolding env_entries env_value
env_object-entries [] h = refl
env_object-entries ((key, value) ∷ env) h = rw (h.0, env_object-entries env h.1)

-- An environment is accepted exactly if it is an object of texts whose names are variable names
-- other than TERM and whose values hold no NUL, and it is taken over entry by entry.
pub project_env-accepts :
    (members : Members) (env : OrderedDict Text Text)
    → (project_env (some (Json.object members)) ≡ some env)
      ↔ ((members ≡ env_object env) × All IsEnvEntry env)
unfolding project_env
project_env-accepts members env = (
  env_entries-object members env,
  λ (same, fine). ap env_entries same ∙ env_object-entries env fine,
)
