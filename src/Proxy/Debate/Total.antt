-- ===== src/Proxy/Debate/Total.antt =====
-- When the debate parser succeeds.
use ic_govmind.Base.{
  ◌≡◌, ◌≢◌, refl, Option, none, some, List, [], ◌∷◌, length, returns, Returns-bind, take,
}
use ic_govmind.Js.Text.{Text, codes}
use ic_govmind.Js.Value.{
  Value, null, bool, num, str, arr, obj, Items, nil, cons, Fields, Engine, prop, get_field,
}
use ic_govmind.Proxy.Debate.{Persona, persona_of, map_personas, personas_of, debate_of, fill}
use ic_govmind.Proxy.Debate.Laws.{length-take-fill}

module _ {N : Type 0} where
  prop_total :
      (key : Text) (v : Value N) → v ≢ null → (o : Option (Value N)) × (prop key v ≡ returns o)
  unfolding prop
  prop_total key null h = absurd (h refl)
  prop_total key (bool b) h = (none, refl)
  prop_total key (num n) h = (none, refl)
  prop_total key (str s) h = (none, refl)
  prop_total key (arr vs) h = (none, refl)
  prop_total key (obj fs) h = (get_field key fs, refl)

  -- No item is null.
  abbrev pub IsPresent : Items N → Type 0
  IsPresent nil = Unit
  IsPresent (cons v vs) = (v ≢ null) × IsPresent vs

module _ {N : Type 0} ⦃e : Engine N⦄ where
  persona_of_total : (v : Value N) → v ≢ null → (p : Persona N) × (persona_of v ≡ returns p)
  unfolding persona_of
  persona_of_total v h =
      Returns-bind (prop (codes "name") v) _ (prop_total (codes "name") v h) λ name.
        Returns-bind (prop (codes "icon") v) _ (prop_total (codes "icon") v h) λ icon.
          Returns-bind (prop (codes "coreArgument") v) _ (prop_total (codes "coreArgument") v h)
            λ argument.
              Returns-bind (prop (codes "objections") v) _ (prop_total (codes "objections") v h)
                λ objections.
                  Returns-bind (prop (codes "actionableSuggestion") v) _
                    (prop_total (codes "actionableSuggestion") v h) λ suggestion. (_, refl)

  map_personas_total :
      (vs : Items N) → IsPresent vs → (ps : List (Persona N)) × (map_personas vs ≡ returns ps)
  unfolding map_personas
  map_personas_total nil h = ([], refl)
  map_personas_total (cons v vs) (h, hs) =
      let (p, hp) = persona_of_total v h in
      let (ps, hps) = map_personas_total vs hs in (p ∷ ps, rw (hp, hps))

  -- The parsed answer is an object whose personas, if it has any, are a list without null.
  abbrev pub IsDebate : Value N → Type 0
  IsDebate v =
      (fs : Fields N) × (vs : Items N) × (v ≡ obj fs)
      × (get_field (codes "personas") fs ≡ some (arr vs))
      × IsPresent vs

  pub debate_of_total :
      (v : Value N)
      → IsDebate v
      → (ps : List (Persona N)) × (debate_of v ≡ returns ps) × (length ps ≡ 4)
  unfolding debate_of personas_of prop
  debate_of_total v (fs, vs, shape, found, present) =
      let (ps, hps) = map_personas_total vs present in
      (take 4 (fill 4 ps), rw (shape, found, hps), length-take-fill ps)
