-- ===== src/OrderedDict/Newest.antt =====
-- A new key goes to the end of a dict, so trimming to a positive limit keeps it.
use wterm.Prelude.{
  ℕ, zero, suc, ◌-◌, ◌≤◌, ◌≡◌, refl, none, some, [], ◌∷◌, ◌++◌, arith, length, length-append, drop,
  drop-append_le, DictKey, ==_refl,
}
use wterm.OrderedDict.{OrderedDict, trim, get, remove, put}
use wterm.OrderedDict.Laws.{trim-eq-drop, get-append, get-remove}

module _ {ℓ κ} {K : Type ℓ} {V : Type κ} ⦃e : DictKey K⦄ where
  pub put_new :
      (k : K) (v : V) (d : OrderedDict K V) → get k d ≡ none → put k v d ≡ d ++ (k, v) ∷ []
  unfolding put get
  put_new k v [] h = refl
  put_new k v ((j, w) ∷ d) h = ground (arith, put_new k v d)

  pub get-drop-none :
      (k : K) (n : ℕ) (d : OrderedDict K V) → get k d ≡ none → get k (drop n d) ≡ none
  unfolding get
  get-drop-none k zero d h = h
  get-drop-none k (suc n) [] h = h
  get-drop-none k (suc n) ((j, w) ∷ d) h = get-drop-none k n d (ground arith)

  pub get-trim-put_new :
      (k : K) (v : V) (limit : ℕ) (d : OrderedDict K V)
      → get k d ≡ none
      → get k (trim (suc limit) (put k v d)) ≡ some v
  unfolding get
  get-trim-put_new k v limit d h =
      let fits : length (d ++ (k, v) ∷ []) - suc limit ≤ length d =
        omega (arith, length-append d ((k, v) ∷ [])) in
      rw (
        put_new k v d h,
        trim-eq-drop (suc limit) (d ++ (k, v) ∷ []),
        drop-append_le _ d ((k, v) ∷ []) fits,
        get-append k (drop (length (d ++ (k, v) ∷ []) - suc limit) d) ((k, v) ∷ []),
        get-drop-none k (length (d ++ (k, v) ∷ []) - suc limit) d h,
        ==_refl k,
      )

  pub get-remove_self : (k : K) (d : OrderedDict K V) → get k (remove k d) ≡ none
  get-remove_self k d = rw (get-remove k k d, ==_refl k)
