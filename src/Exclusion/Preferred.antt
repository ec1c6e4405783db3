-- ===== src/Exclusion/Preferred.antt =====
-- The preferred observation does not depend on the order: src/application/import-exclusion.ts.
use echohoard.Base.{
  All, Any, Bool, Bool-cases, List, [], ap, arith, false, if◌then◌else◌, inl, inr, refl, some,
  subst, sym, true, ◌∙◌, ◌∷◌, ◌≡◌,
}
use echohoard.Exclusion.{Observation, reduce_from, replaces, select_preferred_observation}
use echohoard.Exclusion.Order.{units_gt-cotrans, units_gt_irrefl, units_gt-total, units_gt_trans}

module _ {V : Type 0} (is_usable : V → Bool) where
  abbrev better : Observation V → Observation V → Bool
  better = replaces is_usable

  replaces_irrefl : (a : Observation V) → better a a ≡ false
  unfolding replaces
  replaces_irrefl a = ground (arith, units_gt_irrefl a.observation_key)

  replaces_trans :
      (a b c : Observation V) → better a b ≡ true → better b c ≡ true → better a c ≡ true
  unfolding replaces
  replaces_trans a b c p q =
      ground (arith, units_gt_trans a.observation_key b.observation_key c.observation_key)

  replaces-cotrans :
      (a b c : Observation V) → better a c ≡ true → better a b ≡ false → better b c ≡ true
  unfolding replaces
  replaces-cotrans a b c p q =
      ground (arith, units_gt-cotrans a.observation_key b.observation_key c.observation_key)

  replaces-total :
      (a b : Observation V)
      → better a b ≡ false
      → better b a ≡ false
      → a.observation_key ≡ b.observation_key
  unfolding replaces
  replaces-total a b p q = ground (arith, units_gt-total a.observation_key b.observation_key)

  -- The observation is in the list.
  abbrev pub IsAmong : Observation V → List (Observation V) → Type 0
  IsAmong o = Any (λ p. o ≡ p)

  -- The observation is in the list, and none of the list would replace it.
  abbrev pub IsPreferred : List (Observation V) → Observation V → Type 0
  IsPreferred xs w = IsAmong w xs × All (λ o. better o w ≡ false) xs

  lookup-All :
      (P : Observation V → Type 0) (o : Observation V) (xs : List (Observation V))
      → IsAmong o xs
      → All P xs
      → P o
  lookup-All P o [] m a = elim m [ ]
  lookup-All P o (x ∷ xs) (inl e) a = subst P (sym e) a.0
  lookup-All P o (x ∷ xs) (inr m) a = lookup-All P o xs m a.1

  still_best : (a b c : Observation V) → better a b ≡ true → better a c ≡ false → better b c ≡ false
  still_best a b c p q = elim (Bool-cases (better b c)) [
    | inl wins ↦ cc (replaces_trans a b c p wins)
    | inr loses ↦ loses
  ]

  still_worse :
      (a b c : Observation V) → better a b ≡ false → better b c ≡ false → better a c ≡ false
  still_worse a b c p q = elim (Bool-cases (better a c)) [
    | inl wins ↦ cc (replaces-cotrans a b c wins p)
    | inr loses ↦ loses
  ]

  last_winner : (w v : Observation V) → v ≡ w → IsPreferred (w ∷ []) v
  last_winner w v e = (inl e, (rw e (replaces_irrefl w), tt))

  reduce_from-IsPreferred :
      (w v : Observation V) (xs : List (Observation V))
      → reduce_from is_usable (some w) xs ≡ some v
      → IsPreferred (w ∷ xs) v
  unfolding reduce_from
  reduce_from-IsPreferred w v [] e = last_winner w v (cc)
  reduce_from-IsPreferred w v (c ∷ rest) e = elim (Bool-cases (better c w)) [
    | inl wins ↦
        let (m, (best, all_rest)) = reduce_from-IsPreferred c v rest (rw wins at e) in
        (inr m, (still_best c w v wins best, (best, all_rest)))
    | inr loses ↦
        let (m, (best, all_rest)) = reduce_from-IsPreferred w v rest (rw loses at e) in
        (skip m, (best, (still_worse c w v loses best, all_rest)))
  ]
    where
      skip : IsAmong v (w ∷ rest) → IsAmong v (w ∷ c ∷ rest)
      skip (inl h) = inl h
      skip (inr h) = inr (inr h)

  reduce_from-some :
      (w : Observation V) (xs : List (Observation V))
      → (v : Observation V) × (reduce_from is_usable (some w) xs ≡ some v)
  unfolding reduce_from
  reduce_from-some w [] = (w, refl)
  reduce_from-some w (c ∷ rest) = reduce_from-some (if better c w then c else w) rest

  -- Of a list with observations one is chosen that is in the list and that no observation of the
  -- list would replace.
  pub select-IsPreferred :
      (x : Observation V) (xs : List (Observation V))
      → (w : Observation V) × (select_preferred_observation is_usable (x ∷ xs) ≡ some w)
        × IsPreferred (x ∷ xs) w
  unfolding select_preferred_observation
  select-IsPreferred x xs =
      let (w, e) = reduce_from-some x xs in (w, e, reduce_from-IsPreferred x w xs e)

  -- The same observations, in any order and however often.
  pub record SameMembers (xs ys : List (Observation V)) : Type 0 where
    pub there : All (λ o. IsAmong o ys) xs
    pub back : All (λ o. IsAmong o xs) ys

  -- Two observations with one key are one observation.
  abbrev pub KeysIdentify : List (Observation V) → List (Observation V) → Type 0
  KeysIdentify xs ys = All (λ o. All (λ p. o.observation_key ≡ p.observation_key → o ≡ p) ys) xs

  -- The choice does not depend on the order or the repetition of the observations, where their keys
  -- identify them.
  pub select-SameMembers :
      (xs ys : List (Observation V))
      → SameMembers xs ys
      → KeysIdentify xs ys
      → select_preferred_observation is_usable xs ≡ select_preferred_observation is_usable ys
  select-SameMembers [] [] same keys = refl
  select-SameMembers [] (y ∷ ys) same keys = elim (same.back.0) [ ]
  select-SameMembers (x ∷ xs) [] same keys = elim (same.there.0) [ ]
  select-SameMembers (x ∷ xs) (y ∷ ys) same keys =
      let (w, chosen, (w_in, w_best)) = select-IsPreferred x xs in
      let (v, chosen', (v_in, v_best)) = select-IsPreferred y ys in
      let w_there = lookup-All (λ o. IsAmong o (y ∷ ys)) w (x ∷ xs) w_in same.there in
      let v_back = lookup-All (λ o. IsAmong o (x ∷ xs)) v (y ∷ ys) v_in same.back in
      let w_less = lookup-All (λ o. better o v ≡ false) w (y ∷ ys) w_there v_best in
      let v_less = lookup-All (λ o. better o w ≡ false) v (x ∷ xs) v_back w_best in
      let key = replaces-total w v w_less v_less in
      let row =
        lookup-All (λ o. All (λ p. o.observation_key ≡ p.observation_key → o ≡ p) (y ∷ ys)) w
          (x ∷ xs) w_in keys in
      let one =
        lookup-All (λ p. w.observation_key ≡ p.observation_key → w ≡ p) v (y ∷ ys) v_in row in
      chosen ∙ ap some (one key) ∙ sym chosen'
