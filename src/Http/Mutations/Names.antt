-- ===== src/Http/Mutations/Names.antt =====
-- What the mutations make of the values under one name.
use orion.Base.{
  ℕ, ◌≡◌, refl, ap, subst, ◌∙◌, Bool, true, false, not, ◌&&◌, List, [], ◌∷◌, ◌++◌, list_eq,
  list_eq_lem, if◌then◌else◌, Bool-cases, inl, inr,
}
use orion.Http.Headers.{Headers, present, values-remove}
use orion.Http.Mutations.Defs.{
  HeaderAppendAction, append_if_exists_or_add, append_if_absent, overwrite_if_exists_or_add,
  overwrite_if_exists, HeaderValueOption, HeaderModifier, is_empty, write_value, apply_option,
  remove_names, apply_options, modify, mutate_headers,
}

-- The same, on nothing but the values under the name.
abbrev pub written : HeaderAppendAction → List ℕ → List (List ℕ) → List (List ℕ)
written append_if_exists_or_add value vs = vs ++ (value ∷ [])
written append_if_absent value [] = value ∷ []
written append_if_absent value (v ∷ vs) = v ∷ vs
written overwrite_if_exists_or_add value vs = value ∷ []
written overwrite_if_exists value [] = []
written overwrite_if_exists value (v ∷ vs) = value ∷ []

abbrev pub changed_by : HeaderValueOption → List (List ℕ) → List (List ℕ)
changed_by option vs =
    if is_empty option.header.value && not option.keep_empty_value
    then []
    else written option.append_action option.header.value vs

abbrev pub removed_by : List ℕ → List (List ℕ) → List (List ℕ) → List (List ℕ)
removed_by name [] vs = vs
removed_by name (n ∷ names) vs = removed_by name names (if list_eq n name then [] else vs)

abbrev pub added_by : List ℕ → List HeaderValueOption → List (List ℕ) → List (List ℕ)
added_by name [] vs = vs
added_by name (option ∷ options) vs =
    added_by name options (if list_eq option.header.key name then changed_by option vs else vs)

-- Removed if the modifier removes the name, and then changed by its mutations of that name in turn.
abbrev pub modified_by : List ℕ → HeaderModifier → List (List ℕ) → List (List ℕ)
modified_by name modifier vs = added_by name modifier.add (removed_by name modifier.remove vs)

module _ (h : Headers) where
  absent_or_appended :
      (key value : List ℕ) (m : h.Map) (vs : List (List ℕ))
      → h.values key m ≡ vs
      → h.values key (if present vs then m else h.append key value m)
        ≡ written append_if_absent value vs
  absent_or_appended key value m [] e =
      h.values_append key value m ∙ ap (λ (vs : List (List ℕ)). vs ++ (value ∷ [])) e
  absent_or_appended key value m (v ∷ vs) e = e

  overwritten_or_absent :
      (key value : List ℕ) (m : h.Map) (vs : List (List ℕ))
      → h.values key m ≡ vs
      → h.values key (if present vs then h.insert key value m else m)
        ≡ written overwrite_if_exists value vs
  overwritten_or_absent key value m [] e = e
  overwritten_or_absent key value m (v ∷ vs) e = h.values_insert key value m

  values-write_value :
      (action : HeaderAppendAction) (key value : List ℕ) (m : h.Map)
      → h.values key (write_value h action key value m) ≡ written action value (h.values key m)
  values-write_value append_if_exists_or_add key value m = h.values_append key value m
  values-write_value append_if_absent key value m =
      absent_or_appended key value m (h.values key m) refl
  values-write_value overwrite_if_exists_or_add key value m = h.values_insert key value m
  values-write_value overwrite_if_exists key value m =
      overwritten_or_absent key value m (h.values key m) refl

  either_other :
      (b : Bool) (other : List ℕ) (m m' : h.Map)
      → h.values other m' ≡ h.values other m
      → h.values other (if b then m' else m) ≡ h.values other m
  either_other true other m m' e = e
  either_other false other m m' e = refl

  neither_other :
      (b : Bool) (other : List ℕ) (m m' : h.Map)
      → h.values other m' ≡ h.values other m
      → h.values other (if b then m else m') ≡ h.values other m
  neither_other true other m m' e = refl
  neither_other false other m m' e = e

  values-write_value_other :
      (action : HeaderAppendAction) (key value other : List ℕ) (m : h.Map)
      → list_eq key other ≡ false
      → h.values other (write_value h action key value m) ≡ h.values other m
  values-write_value_other append_if_exists_or_add key value other m n =
      h.values_append_other key other value m n
  values-write_value_other append_if_absent key value other m n =
      neither_other (present (h.values key m)) other m (h.append key value m)
        (h.values_append_other key other value m n)
  values-write_value_other overwrite_if_exists_or_add key value other m n =
      h.values_insert_other key other value m n
  values-write_value_other overwrite_if_exists key value other m n =
      either_other (present (h.values key m)) other m (h.insert key value m)
        (h.values_insert_other key other value m n)

  apply_own :
      (b : Bool) (action : HeaderAppendAction) (key value : List ℕ) (m : h.Map)
      → h.values key (if b then h.remove key m else write_value h action key value m)
        ≡ (if b then [] else written action value (h.values key m))
  apply_own true action key value m = h.values_remove key m
  apply_own false action key value m = values-write_value action key value m

  apply_other :
      (b : Bool) (action : HeaderAppendAction) (key value other : List ℕ) (m : h.Map)
      → list_eq key other ≡ false
      → h.values other (if b then h.remove key m else write_value h action key value m)
        ≡ h.values other m
  apply_other true action key value other m n = h.values_remove_other key other m n
  apply_other false action key value other m n = values-write_value_other action key value other m n

  values-apply_option :
      (name : List ℕ) (option : HeaderValueOption) (m : h.Map)
      → h.values name (apply_option h option m) ≡ (
          if list_eq option.header.key name
          then changed_by option (h.values name m)
          else h.values name m)
  unfolding apply_option
  values-apply_option name option m = elim (Bool-cases (list_eq option.header.key name)) [
    | inl e ↦ rw e (
        subst
          (λ (k : List ℕ).
            h.values k (
              if is_empty option.header.value && not option.keep_empty_value
              then h.remove option.header.key m
              else write_value h option.append_action option.header.key option.header.value m)
            ≡ changed_by option (h.values k m))
          (list_eq_lem option.header.key name e)
          (apply_own (is_empty option.header.value && not option.keep_empty_value)
            option.append_action option.header.key option.header.value m))
    | inr e ↦ rw e (
        apply_other (is_empty option.header.value && not option.keep_empty_value)
          option.append_action option.header.key option.header.value name m e)
  ]

  values-remove_names :
      (name : List ℕ) (names : List (List ℕ)) (m : h.Map)
      → h.values name (remove_names h names m) ≡ removed_by name names (h.values name m)
  unfolding remove_names
  values-remove_names name [] m = refl
  values-remove_names name (n ∷ names) m =
      values-remove_names name names (h.remove n m)
      ∙ ap (removed_by name names) (values-remove h n name m)

  values-apply_options :
      (name : List ℕ) (options : List HeaderValueOption) (m : h.Map)
      → h.values name (apply_options h options m) ≡ added_by name options (h.values name m)
  unfolding apply_options
  values-apply_options name [] m = refl
  values-apply_options name (option ∷ options) m =
      values-apply_options name options (apply_option h option m)
      ∙ ap (added_by name options) (values-apply_option name option m)

  values-modify :
      (name : List ℕ) (modifier : HeaderModifier) (m : h.Map)
      → h.values name (modify h modifier m) ≡ modified_by name modifier (h.values name m)
  unfolding modify
  values-modify name modifier m =
      values-apply_options name modifier.add (remove_names h modifier.remove m)
      ∙ ap (added_by name modifier.add) (values-remove_names name modifier.remove m)

  values-three :
      (name : List ℕ) (first second third : HeaderModifier) (m : h.Map)
      → h.values name (modify h third (modify h second (modify h first m)))
        ≡ modified_by name third
            (modified_by name second (modified_by name first (h.values name m)))
  values-three name first second third m =
      values-modify name third (modify h second (modify h first m))
      ∙ ap (modified_by name third) (
          values-modify name second (modify h first m)
          ∙ ap (modified_by name second) (values-modify name first m))

  -- The values under a name are changed by the mutations of that name alone: of each modifier first
  -- the removals and then the others in turn, where one that writes an empty value it need not keep
  -- leaves none. The modifier of the route comes last if the most specific mutations win, and that of
  -- the configuration otherwise.
  pub mutate_headers_lem :
      (wins : Bool) (config host route : HeaderModifier) (name : List ℕ) (m : h.Map)
      → h.values name (mutate_headers h wins config host route m) ≡ (
          if wins
          then modified_by name route
              (modified_by name host (modified_by name config (h.values name m)))
          else modified_by name config
              (modified_by name host (modified_by name route (h.values name m))))
  unfolding mutate_headers
  mutate_headers_lem true config host route name m = values-three name config host route m
  mutate_headers_lem false config host route name m = values-three name route host config m
