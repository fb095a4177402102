-- ===== src/Dict.antt =====
-- Python dictionaries keyed by text: association lists in the order of insertion. A key that is
-- set again keeps its place.
use knovaryn.Base.{
  ◌≡◌, refl, Bool, false, String, str_eq, eq_iff, List, [], ◌∷◌, Option, none, some, if◌then◌else◌,
  arith, is_some,
}

abbrev pub Dict {ℓ} : Type ℓ → Type ℓ
Dict V = List (String × V)

module _ {ℓ} {V : Type ℓ} where
  unfoldable pub get : Dict V → String → Option V
  get [] k = none
  get ((j, v) ∷ d) k = if str_eq j k then some v else get d k

  unfoldable pub put : Dict V → String → V → Dict V
  put [] k v = (k, v) ∷ []
  put ((j, w) ∷ d) k v = if str_eq j k then (k, v) ∷ d else (j, w) ∷ put d k v

  unfoldable pub get_or : Dict V → String → V → V
  unfolding get
  get_or d k v = elim (get d k) [ none ↦ v | some w ↦ w ]

  -- d.setdefault(k, v)
  unfoldable pub set_default : Dict V → String → V → Dict V
  unfolding get put
  set_default d k v = if is_some (get d k) then d else put d k v

  -- `k in d`
  unfoldable pub has : Dict V → String → Bool
  unfolding get
  has d k = is_some (get d k)

  pub get-put :
      (d : Dict V) (k j : String) (v : V)
      → get (put d k v) j ≡ (if str_eq k j then some v else get d j)
  unfolding get put
  get-put [] k j v = refl
  get-put ((i, w) ∷ d) k j v = ground (arith, get-put d k j v, eq_iff k j, eq_iff i k, eq_iff i j)

  pub get-put_self : (d : Dict V) (k : String) (v : V) → get (put d k v) k ≡ some v
  get-put_self d k v = ground (arith, get-put d k k v, eq_iff k k)

  pub get-put_ne :
      (d : Dict V) (k j : String) (v : V) → str_eq k j ≡ false → get (put d k v) j ≡ get d j
  get-put_ne d k j v h = ground (arith, get-put d k j v, h)

  -- the dictionary without a key
  unfoldable pub remove : Dict V → String → Dict V
  remove [] k = []
  remove ((j, v) ∷ d) k = let rest = remove d k in if str_eq j k then rest else (j, v) ∷ rest

  pub get-remove :
      (d : Dict V) (k j : String) → get (remove d k) j ≡ (if str_eq k j then none else get d j)
  unfolding get remove
  get-remove [] k j = ground arith
  get-remove ((i, v) ∷ d) k j = ground (arith, get-remove d k j, eq_iff k j, eq_iff i k, eq_iff i j)
