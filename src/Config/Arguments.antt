-- ===== src/Config/Arguments.antt =====
-- Which command line arguments of a project are accepted, and what they become.
use wterm.Prelude.{
  ◌≡◌, refl, ap, ap₂, ◌∙◌, ◌↔◌, Bool, true, false, Option, none, some, List, [], ◌∷◌, All, Text,
  Bool-cases, inl, inr, nat_key, list_key,
}
use wterm.Json
use wterm.Json.{Json, Items, Members}
use wterm.OrderedDict.{OrderedDict}
use wterm.Config.{is_arg, cons_arg, arg_items, is_agent, arg_values, arg_entries, project_args}
use wterm.Config.Entries.{cons_entry-some}

abbrev pub text_items : List Text → Items
text_items [] = Json.nil
text_items (value ∷ values) = Json.item (Json.str value) (text_items values)

-- The object that the arguments are written as.
abbrev pub args_object : OrderedDict Text (List Text) → Members
args_object [] = Json.end
args_object ((agent, values) ∷ args) =
    Json.member agent (Json.array (text_items values)) (args_object args)

-- Without NUL, and not the end of the options.
abbrev pub IsArg : Text → Type 0
IsArg value = is_arg value ≡ true

abbrev pub IsArgEntry : Text × List Text → Type 0
IsArgEntry (agent, values) = (is_agent agent ≡ true) × All IsArg values

cons_arg-some :
    (fine : Bool) (value : Text) (rest : Option (List Text)) (values : List Text)
    → cons_arg fine value rest ≡ some values
    → (r : List Text) × (fine ≡ true) × (rest ≡ some r) × (values ≡ value ∷ r)
cons_arg-some fine value none values h = absurd (cc)
cons_arg-some true value (some r) values h = (r, refl, refl, cc)
cons_arg-some false value (some r) values h = absurd (cc)

arg_items-text :
    (items : Items) (values : List Text)
    → arg_items items ≡ some values
    → (items ≡ text_items values) × All IsArg values
unfolding arg_items
arg_items-text Json.nil [] h = (refl, tt)
arg_items-text Json.nil (v ∷ values) h = absurd (cc)
arg_items-text (Json.item (Json.str value) rest) values h =
    let (r, fine, others, whole) = cons_arg-some (is_arg value) value (arg_items rest) values h in
    let (same, all_fine) = arg_items-text rest r others in
    rw whole (ap (Json.item (Json.str value)) same, (fine, all_fine))
arg_items-text (Json.item Json.null rest) values h = absurd (cc)
arg_items-text (Json.item (Json.bool b) rest) values h = absurd (cc)
arg_items-text (Json.item (Json.int n) rest) values h = absurd (cc)
arg_items-text (Json.item Json.float rest) values h = absurd (cc)
arg_items-text (Json.item (Json.array items) rest) values h = absurd (cc)
arg_items-text (Json.item (Json.object members) rest) values h = absurd (cc)

arg_values-array :
    (agent : Text) (v : Json) (values : List Text)
    → arg_values agent v ≡ some values
    → (v ≡ Json.array (text_items values)) × IsArgEntry (agent, values)
unfolding arg_values
arg_values-array agent (Json.array items) values h = elim (Bool-cases (is_agent agent)) [
  | inr other ↦ absurd (let no : none ≡ some values = (rw (other, arg_values) at h) in cc)
  | inl known ↦
      let (same, fine) = arg_items-text items values (rw (known, arg_values) at h) in
      (ap Json.array same, (known, fine))
]
arg_values-array agent Json.null values h = absurd (cc)
arg_values-array agent (Json.bool b) values h = absurd (cc)
arg_values-array agent (Json.int n) values h = absurd (cc)
arg_values-array agent Json.float values h = absurd (cc)
arg_values-array agent (Json.str t) values h = absurd (cc)
arg_values-array agent (Json.object members) values h = absurd (cc)

arg_entries-object :
    (members : Members) (args : OrderedDict Text (List Text))
    → arg_entries members ≡ some args
    → (members ≡ args_object args) × All IsArgEntry args
unfolding arg_entries
arg_entries-object Json.end [] h = (refl, tt)
arg_entries-object Json.end (e ∷ args) h = absurd (cc)
arg_entries-object (Json.member agent v rest) args h =
    let (values, r, first, others, whole) =
      cons_entry-some agent (arg_values agent v) (arg_entries rest) args h in
    let (array, fine) = arg_values-array agent v values first in
    let (object, all_fine) = arg_entries-object rest r others in
    rw whole (ap₂ (λ x y. Json.member agent x y) array object, (fine, all_fine))

text_items-arg :
    (values : List Text) → All IsArg values → arg_items (text_items values) ≡ some values
unfolding arg_items
text_items-arg [] h = refl
text_items-arg (value ∷ values) h = rw (text_items-arg values h.1, h.0)

args_object-entries :
    (args : OrderedDict Text (List Text))
    → All IsArgEntry args
    → arg_entries (args_object args) ≡ some args
unfolding arg_entries arg_values
args_object-entries [] h = refl
args_object-entries ((agent, values) ∷ args) h =
    rw (h.0.0, text_items-arg values h.0.1, args_object-entries args h.1)

-- Arguments are accepted exactly if they are an object that gives claude or codex a list of texts,
-- none of which holds a NUL or is the end of the options, and they are taken over in their order.
pub project_args-accepts :
    (members : Members) (args : OrderedDict Text (List Text))
    → (project_args (some (Json.object members)) ≡ some args)
      ↔ ((members ≡ args_object args) × All IsArgEntry args)
unfolding project_args
project_args-accepts members args = (
  arg_entries-object members args,
  λ (same, fine). ap arg_entries same ∙ args_object-entries args fine,
)
