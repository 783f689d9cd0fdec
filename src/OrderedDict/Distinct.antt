-- ===== src/OrderedDict/Distinct.antt =====
-- A dict holds no key twice, and every operation keeps it so; what trimming does to a lookup.
use wterm.Prelude.{
  ℕ, ◌≡◌, ◌⊎◌, refl, none, [], ◌∷◌, ◌++◌, arith, ltb, length, DictKey, ◌==◌, Option-cases,
  Bool-cases, inl, inr, ==_refl,
}
use wterm.OrderedDict.{OrderedDict, trim, get, remove, put, move_to_end}
use wterm.OrderedDict.Laws.{get-remove, get-put, get-append}

module _ {ℓ κ} {K : Type ℓ} {V : Type κ} ⦃e : DictKey K⦄ where
  abbrev pub Distinct : OrderedDict K V → Type κ
  Distinct [] = Unit
  Distinct ((k, v) ∷ d) = (get k d ≡ none) × Distinct d

  pub get-trim :
      (k : K) (limit : ℕ) (d : OrderedDict K V)
      → Distinct d
      → (get k (trim limit d) ≡ get k d) ⊎ (get k (trim limit d) ≡ none)
  unfolding trim get
  get-trim k limit [] h = inl refl
  get-trim k limit ((j, v) ∷ d) h = ground (arith, get-trim k limit d h.1, e.equal_iff j k)

  pub trim-Distinct : (limit : ℕ) (d : OrderedDict K V) → Distinct d → Distinct (trim limit d)
  unfolding trim
  trim-Distinct limit [] h = h
  trim-Distinct limit ((j, v) ∷ d) h = elim (Bool-cases (ltb limit (length ((j, v) ∷ d)))) [
    | inl over ↦ rw over (trim-Distinct limit d h.1)
    | inr fits ↦ rw fits h
  ]

  pub remove-Distinct : (k : K) (d : OrderedDict K V) → Distinct d → Distinct (remove k d)
  unfolding remove
  remove-Distinct k [] h = h
  remove-Distinct k ((j, v) ∷ d) h = elim (Bool-cases (j == k)) [
    | inl same ↦ rw same (remove-Distinct k d h.1)
    | inr other ↦ rw other (ground (arith, get-remove k j d), remove-Distinct k d h.1)
  ]

  pub put-Distinct : (k : K) (v : V) (d : OrderedDict K V) → Distinct d → Distinct (put k v d)
  unfolding put get
  put-Distinct k v [] h = (refl, tt)
  put-Distinct k v ((j, w) ∷ d) h = elim (Bool-cases (j == k)) [
    | inl same ↦ rw same h
    | inr other ↦
        rw other (
          ground (arith, get-put k j v d, e.equal_iff j k, e.equal_iff k j),
          put-Distinct k v d h.1,
        )
  ]

  append-Distinct :
      (k : K) (v : V) (d : OrderedDict K V)
      → get k d ≡ none
      → Distinct d
      → Distinct (d ++ (k, v) ∷ [])
  unfolding get
  append-Distinct k v [] new h = (refl, tt)
  append-Distinct k v ((j, w) ∷ d) new h = elim (Bool-cases (j == k)) [
    | inl same ↦ absurd (ground arith)
    | inr other ↦ (
      ground (arith, get-append j d ((k, v) ∷ []), e.equal_iff j k, e.equal_iff k j),
      append-Distinct k v d (ground arith) h.1,
    )
  ]

  pub move_to_end-Distinct : (k : K) (d : OrderedDict K V) → Distinct d → Distinct (move_to_end k d)
  unfolding move_to_end
  move_to_end-Distinct k d h = elim (Option-cases (get k d)) [
    | inl missing ↦ rw (missing, move_to_end) h
    | inr (v, found) ↦
        rw (found, move_to_end)
          (append-Distinct k v (remove k d) (ground (arith, get-remove k k d, ==_refl k))
            (remove-Distinct k d h))
  ]
