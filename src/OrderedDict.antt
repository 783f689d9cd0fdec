-- ===== src/OrderedDict.antt =====
-- Python's `dict` and `collections.OrderedDict`: the entries in insertion order, over keys with `==`.
-- A dict never holds a key twice; `remove` drops every entry of the key, which is that one.
use wterm.Prelude.{
  ℕ, suc, ◌+◌, ◌-◌, ◌≤◌, ◌≡◌, refl, Bool, true, false, Option, none, some, List, [], ◌∷◌, ◌++◌, map,
  arith, ltb, if◌then◌else◌, length, drop, DictKey, ◌==◌, Option-cases, Bool-cases,
}
pub mod Laws
pub mod Distinct
pub mod Newest

abbrev pub OrderedDict {ℓ κ} : Type ℓ → Type κ → Type (ℓ ⊔ κ)
OrderedDict K V = List (K × V)

module _ {ℓ κ} {K : Type ℓ} {V : Type κ} where
  -- `while len(d) > limit: d.popitem(last=False)`
  unfoldable pub trim : ℕ → OrderedDict K V → OrderedDict K V
  trim limit [] = []
  trim limit (x ∷ d) = let rest = trim limit d in if ltb limit (length (x ∷ d)) then rest else x ∷ d

module _ {ℓ κ} {K : Type ℓ} {V : Type κ} ⦃e : DictKey K⦄ where
  -- d.get(k)
  unfoldable pub get : K → OrderedDict K V → Option V
  get k [] = none
  get k ((j, v) ∷ d) = if j == k then some v else get k d

  -- d.pop(k, None), del d[k]
  unfoldable pub remove : K → OrderedDict K V → OrderedDict K V
  remove k [] = []
  remove k ((j, v) ∷ d) = let rest = remove k d in if j == k then rest else (j, v) ∷ rest

  -- d[k] = v: an old key keeps its place, a new one goes to the end.
  unfoldable pub put : K → V → OrderedDict K V → OrderedDict K V
  put k v [] = (k, v) ∷ []
  put k v ((j, w) ∷ d) = let rest = put k v d in if j == k then (j, v) ∷ d else (j, w) ∷ rest

  -- d.move_to_end(k), for a key that is there
  unfoldable pub move_to_end : K → OrderedDict K V → OrderedDict K V
  unfolding get remove
  move_to_end k d = elim (get k d) [ none ↦ d | some v ↦ remove k d ++ (k, v) ∷ [] ]
