-- ===== src/Exclusion/Tests.antt =====
-- Concrete observations, and the theorems about the choice among them at concrete inputs.
use echohoard.Base.{Bool, String, [], false, inl, inr, refl, some, true, ℕ, ◌∷◌, ◌≡◌}
use echohoard.Exclusion.{Observation, select_preferred_observation}
use echohoard.Exclusion.Preferred.{IsPreferred, select-IsPreferred, select-SameMembers}

abbrev seen : ℕ → ℕ → String → Bool → Observation Bool
seen key time kind usable = record {
  observation_key = 111 ∷ key ∷ [];
  observed_at = time;
  source_kind = kind;
  value = usable;
}

abbrev early : Observation Bool
early = seen 1 1000 "encrypted-snapshot" true

abbrev late : Observation Bool
late = seen 2 2000 "live" true

abbrev broken : Observation Bool
broken = seen 3 3000 "encrypted-snapshot" false

abbrev usable : Bool → Bool
usable b = b

select-IsPreferred_example :
    (w : Observation Bool) × (select_preferred_observation usable (late ∷ broken ∷ early ∷ [])
      ≡ some w)
    × IsPreferred usable (late ∷ broken ∷ early ∷ []) w
select-IsPreferred_example = select-IsPreferred usable late (broken ∷ early ∷ [])

select-SameMembers_example :
    select_preferred_observation usable (late ∷ broken ∷ early ∷ [])
    ≡ select_preferred_observation usable (early ∷ late ∷ broken ∷ late ∷ [])
select-SameMembers_example =
    select-SameMembers usable (late ∷ broken ∷ early ∷ []) (early ∷ late ∷ broken ∷ late ∷ [])
      (record {
        there = (inr (inl refl), (inr (inr (inl refl)), (inl refl, tt)));
        back = (inr (inr (inl refl)), (inl refl, (inr (inl refl), (inl refl, tt))));
      })
      (
        ((λ e. cc), ((λ e. refl), ((λ e. cc), ((λ e. refl), tt)))),
        (
          ((λ e. cc), ((λ e. cc), ((λ e. refl), ((λ e. cc), tt)))),
          (((λ e. refl), ((λ e. cc), ((λ e. cc), ((λ e. cc), tt)))), tt),
        ),
      )
