-- ===== src/OrderedDict/Laws.antt =====
-- What the operations of an ordered dict do to lookups and to its size.
use wterm.Prelude.{
  ℕ, suc, ◌+◌, ◌-◌, ◌≤◌, ◌<◌, ◌≡◌, refl, none, some, [], ◌∷◌, ◌++◌, arith, ltb, if◌then◌else◌,
  length, length-append, drop, drop-nil, drop_zero, tests, sym, DictKey, ◌==◌, Option-cases,
  Bool-cases, inl, inr,
}
use wterm.OrderedDict.{OrderedDict, trim, get, remove, put, move_to_end}

module _ {ℓ κ} {K : Type ℓ} {V : Type κ} where
  pub length-trim-le : (limit : ℕ) (d : OrderedDict K V) → length (trim limit d) ≤ limit
  unfolding trim
  length-trim-le limit [] = omega arith
  length-trim-le limit (x ∷ d) = ground (arith, length-trim-le limit d)

  -- Trimming drops the oldest entries, as many as are over the limit.
  pub trim-eq-drop : (limit : ℕ) (d : OrderedDict K V) → trim limit d ≡ drop (length d - limit) d
  unfolding trim
  trim-eq-drop limit [] = sym (drop-nil (0 - limit))
  trim-eq-drop limit (x ∷ d) = elim (Bool-cases (ltb limit (length (x ∷ d)))) [
    | inl over ↦
        let less : length (x ∷ d) - limit ≡ suc (length d - limit) = omega tests in
        rw (over, less) (trim-eq-drop limit d)
    | inr fits ↦
        let none_over : length (x ∷ d) - limit ≡ 0 = omega tests in
        rw fits (sym (drop_zero _ (x ∷ d) none_over))
  ]

  pub trim_small : (limit : ℕ) (d : OrderedDict K V) → length d ≤ limit → trim limit d ≡ d
  unfolding trim
  trim_small limit [] h = refl
  trim_small limit (x ∷ d) h = ground arith

module _ {ℓ κ} {K : Type ℓ} {V : Type κ} ⦃e : DictKey K⦄ where
  pub get-remove :
      (k j : K) (d : OrderedDict K V) → get j (remove k d) ≡ (if k == j then none else get j d)
  unfolding get remove
  get-remove k j [] = ground arith
  get-remove k j ((i, v) ∷ d) =
      ground (arith, get-remove k j d, e.equal_iff i k, e.equal_iff i j, e.equal_iff k j)

  pub get-put :
      (k j : K) (v : V) (d : OrderedDict K V)
      → get j (put k v d) ≡ (if k == j then some v else get j d)
  unfolding get put
  get-put k j v [] = refl
  get-put k j v ((i, w) ∷ d) =
      ground (arith, get-put k j v d, e.equal_iff i k, e.equal_iff i j, e.equal_iff k j)

  pub get-append :
      (j : K) (d f : OrderedDict K V)
      → get j (d ++ f) ≡ elim (get j d) [ none ↦ get j f | some v ↦ some v ]
  unfolding get
  get-append j [] f = refl
  get-append j ((i, v) ∷ d) f = ground (arith, get-append j d f)

  pub get-move_to_end : (k j : K) (d : OrderedDict K V) → get j (move_to_end k d) ≡ get j d
  unfolding move_to_end get
  get-move_to_end k j d = elim (Option-cases (get k d)) [
    | inl missing ↦ rw (missing, move_to_end)
    | inr (v, found) ↦
        rw (found, move_to_end)
          (ground
            (arith, get-append j (remove k d) ((k, v) ∷ []), get-remove k j d, e.equal_iff k j))
  ]

  pub length-remove-le : (k : K) (d : OrderedDict K V) → length (remove k d) ≤ length d
  unfolding remove
  length-remove-le k [] = omega arith
  length-remove-le k (x ∷ d) = ground (arith, length-remove-le k d)

  pub length-put-le : (k : K) (v : V) (d : OrderedDict K V) → length (put k v d) ≤ length d + 1
  unfolding put
  length-put-le k v [] = omega arith
  length-put-le k v (x ∷ d) = ground (arith, length-put-le k v d)

  pub length-put_known :
      (k : K) (v w : V) (d : OrderedDict K V) → get k d ≡ some w → length (put k v d) ≡ length d
  unfolding put get
  length-put_known k v w [] h = cc
  length-put_known k v w (x ∷ d) h = ground (arith, length-put_known k v w d)

  -- A known key's entry is dropped, so the dict gets shorter.
  pub length-remove_known :
      (k : K) (w : V) (d : OrderedDict K V) → get k d ≡ some w → length (remove k d) < length d
  unfolding remove get
  length-remove_known k w [] h = cc
  length-remove_known k w (x ∷ d) h =
      ground (arith, length-remove_known k w d, length-remove-le k d)

  pub length-move_to_end-le : (k : K) (d : OrderedDict K V) → length (move_to_end k d) ≤ length d
  unfolding move_to_end
  length-move_to_end-le k d = elim (Option-cases (get k d)) [
    | inl missing ↦ rw (missing, move_to_end) (omega arith)
    | inr (v, found) ↦
        rw (found, move_to_end)
          (omega (arith, length-append (remove k d) ((k, v) ∷ []), length-remove_known k v d found))
  ]
