-- ===== src/Config/Names.antt =====
-- server/config.py: the names of the projects that `load_config` accepts.
use wterm.OrderedDict.{OrderedDict}
use wterm.Prelude.{
  All, All-append, All-imp, subst, ==_refl, ◌≡◌, ◌≢◌, refl, sym, ap, ◌∙◌, true, false, Option, none,
  some, List, [], ◌∷◌, ◌++◌, Text, codes, Bool-cases, Option-cases, inl, inr, nat_key, list_key,
  arith,
}
use wterm.Json
use wterm.Json.{Json, Items, Members, find}
use wterm.Config.{project_args, project_env, Project}
use wterm.Config.Origins.{is_listed}
use wterm.Config.Load.{
  text_value, ssh_value, place, project_at, project_fields, append_some, projects_onto, Outside,
  ◌>>=◌, projects_value,
}

pub >>=-some {ℓ κ} :
    {A : Type ℓ} {B : Type κ} (o : Option A) (f : A → Option B) (b : B)
    → o >>= f ≡ some b
    → (a : A) × (o ≡ some a) × (f a ≡ some b)
>>=-some none f b h = absurd (cc)
>>=-some (some a) f b h = (a, refl, h)

-- No two projects have the same name.
abbrev pub IsUnique : List Project → Type 0
IsUnique [] = Unit
IsUnique (p ∷ projects) = All (λ q. p.name ≢ q.name) projects × IsUnique projects

append-IsUnique :
    (projects : List Project) (p : Project)
    → IsUnique projects
    → All (λ q. q.name ≢ p.name) projects
    → IsUnique (projects ++ p ∷ [])
append-IsUnique [] p u other = (tt, tt)
append-IsUnique (q ∷ projects) p u other = (
  All-append (λ r. q.name ≢ r.name) projects (p ∷ []) u.0 (other.0, tt),
  append-IsUnique projects p u.1 other.1,
)

-- The names of the projects so far are among the names that were seen.
abbrev IsSeen : List Text → Project → Type 0
IsSeen names p = is_listed p.name names ≡ true

is_listed-append :
    (t name : Text) (names : List Text)
    → is_listed t names ≡ true
    → is_listed t (names ++ name ∷ []) ≡ true
unfolding is_listed
is_listed-append t name [] h = absurd (cc)
is_listed-append t name (u ∷ names) h = ground (arith, is_listed-append t name names)

is_listed-last : (name : Text) (names : List Text) → is_listed name (names ++ name ∷ []) ≡ true
unfolding is_listed
is_listed-last name [] = rw (==_refl name)
is_listed-last name (u ∷ names) = ground (arith, is_listed-last name names)

seen-other :
    (name : Text) (names : List Text) (p : Project)
    → is_listed name names ≡ false
    → IsSeen names p
    → p.name ≢ name
seen-other name names p new seen same =
    absurd
      (let old : is_listed name names ≡ true = ap (λ t. is_listed t names) (sym same) ∙ seen in cc)

place-name :
    (world : Outside) (name path : Text) (ssh : Option Text) (args : OrderedDict Text (List Text))
    (env : OrderedDict Text Text) (p : Project)
    → place world name path ssh args env ≡ some (some p)
    → p.name ≡ name
place-name world name path (some host) args env p h =
    (let same : project_at name path (some host) args env ≡ p = cc in ap (λ q. q.name) (sym same))
place-name world name path none args env p h = elim (Option-cases (world.directory path)) [
  | inl missing ↦ absurd (let gone : none ≡ some (some p) = (rw (missing, place) at h) in cc)
  | inr (none, there) ↦
      absurd (let gone : some none ≡ some (some p) = (rw (there, place) at h) in cc)
  | inr (some resolved, there) ↦
      let here : some (some (project_at name resolved none args env)) ≡ some (some p) =
        (rw (there, place) at h) in
      let same : project_at name resolved none args env ≡ p = cc in ap (λ q. q.name) (sym same)
]

project_fields-name :
    (world : Outside) (name : Text) (item : Members) (p : Project)
    → project_fields world name item ≡ some (some p)
    → p.name ≡ name
project_fields-name world name item p h =
    let (path, _, h1) = >>=-some (text_value (find (codes "path") item)) _ (some p) h in
    let (ssh, _, h2) = >>=-some (ssh_value (find (codes "ssh") item)) _ (some p) h1 in
    let (args, _, h3) = >>=-some (project_args (find (codes "args") item)) _ (some p) h2 in
    let (env, _, h4) = >>=-some (project_env (find (codes "env") item)) _ (some p) h3 in
    place-name world name path ssh args env p (cc)

-- What the loop keeps of the names and the projects so far.
abbrev IsLoop : List Text → List Project → Type 0
IsLoop names projects = IsUnique projects × All (IsSeen names) projects

append_some-IsLoop :
    (names : List Text) (projects : List Project) (name : Text) (found : Option Project)
    → is_listed name names ≡ false
    → ((p : Project) → found ≡ some p → p.name ≡ name)
    → IsLoop names projects
    → IsLoop (names ++ name ∷ []) (append_some projects found)
append_some-IsLoop names projects name none new named (u, seen) = (
  u,
  All-imp (IsSeen names) (IsSeen (names ++ name ∷ [])) (λ q. is_listed-append q.name name names)
      projects seen,
)
append_some-IsLoop names projects name (some p) new named (u, seen) =
    let here : p.name ≡ name = named p refl in
    (
      append-IsUnique projects p u (
          All-imp (IsSeen names) (λ q. q.name ≢ p.name)
            (λ q s e. seen-other name names q new s (e ∙ here)) projects seen),
      All-append (IsSeen (names ++ name ∷ [])) projects (p ∷ [])
          (All-imp (IsSeen names) (IsSeen (names ++ name ∷ []))
            (λ q. is_listed-append q.name name names) projects seen)
          (ap (λ t. is_listed t (names ++ name ∷ [])) here ∙ is_listed-last name names, tt),
    )

projects_onto-IsUnique :
    (world : Outside) (names : List Text) (projects : List Project) (items : Items)
    (result : List Project)
    → IsLoop names projects
    → projects_onto world names projects items ≡ some result
    → IsUnique result
unfolding projects_onto
projects_onto-IsUnique world names projects Json.nil result l h =
    (let same : projects ≡ result = cc in subst IsUnique same l.0)
projects_onto-IsUnique world names projects (Json.item (Json.object item) rest) result l h =
    let (name, _, h1) = >>=-some (text_value (find (codes "name") item)) _ result h in
    elim (Bool-cases (is_listed name names)) [
      | inl old ↦ absurd (let gone : none ≡ some result = (rw old at h1) in cc)
      | inr new ↦
          let (found, fields, h2) =
            >>=-some (project_fields world name item) _ result (rw new at h1) in
          projects_onto-IsUnique world (names ++ name ∷ []) (append_some projects found) rest result
            (append_some-IsLoop names projects name found new
              (λ p e. project_fields-name world name item p (fields ∙ ap some e)) l)
            h2
    ]
projects_onto-IsUnique world names projects (Json.item Json.null rest) result l h = absurd (cc)
projects_onto-IsUnique world names projects (Json.item (Json.bool b) rest) result l h = absurd (cc)
projects_onto-IsUnique world names projects (Json.item (Json.int n) rest) result l h = absurd (cc)
projects_onto-IsUnique world names projects (Json.item Json.float rest) result l h = absurd (cc)
projects_onto-IsUnique world names projects (Json.item (Json.str t) rest) result l h = absurd (cc)
projects_onto-IsUnique world names projects (Json.item (Json.array a) rest) result l h = absurd (cc)

pub projects_value-IsUnique :
    (world : Outside) (value : Option Json) (result : List Project)
    → projects_value world value ≡ some result
    → IsUnique result
projects_value-IsUnique world none result h =
    (let same : [] ≡ result = cc in subst IsUnique same tt)
projects_value-IsUnique world (some (Json.array items)) result h =
    projects_onto-IsUnique world [] [] items result (tt, tt) h
projects_value-IsUnique world (some Json.null) result h = absurd (cc)
projects_value-IsUnique world (some (Json.bool b)) result h = absurd (cc)
projects_value-IsUnique world (some (Json.int n)) result h = absurd (cc)
projects_value-IsUnique world (some Json.float) result h = absurd (cc)
projects_value-IsUnique world (some (Json.str t)) result h = absurd (cc)
projects_value-IsUnique world (some (Json.object m)) result h = absurd (cc)
