-- ===== src/Http/Mutations/Defs.antt =====
-- `HeaderModifier` of
-- orion-configuration/src/config/network_filters/http_connection_manager/header_modifer.rs, and the
-- order in which the request handler applies those of a configuration, a virtual host and a route. The
-- result of `apply` says whether the map has changed, which no caller reads.
use orion.Base.{ℕ, Bool, true, false, not, ◌&&◌, List, [], ◌∷◌, if◌then◌else◌}
use orion.Http.Headers.{Headers, present}

pub data HeaderAppendAction : Type 0 where
  append_if_exists_or_add append_if_absent overwrite_if_exists_or_add overwrite_if_exists :
      HeaderAppendAction

pub record HeaderKeyValue : Type 0 where
  pub key : List ℕ
  pub value : List ℕ

pub record HeaderValueOption : Type 0 where
  pub header : HeaderKeyValue
  pub append_action : HeaderAppendAction
  pub keep_empty_value : Bool

pub record HeaderModifier : Type 0 where
  pub remove : List (List ℕ)
  pub add : List HeaderValueOption

abbrev pub is_empty : List ℕ → Bool
is_empty [] = true
is_empty (b ∷ s) = false

module _ (h : Headers) where
  abbrev pub write_value : HeaderAppendAction → List ℕ → List ℕ → h.Map → h.Map
  write_value append_if_exists_or_add key value m = h.append key value m
  write_value append_if_absent key value m =
      if present (h.values key m) then m else h.append key value m
  write_value overwrite_if_exists_or_add key value m = h.insert key value m
  write_value overwrite_if_exists key value m =
      if present (h.values key m) then h.insert key value m else m

  unfoldable pub apply_option : HeaderValueOption → h.Map → h.Map
  apply_option option m =
      if is_empty option.header.value && not option.keep_empty_value
      then h.remove option.header.key m
      else write_value option.append_action option.header.key option.header.value m

  unfoldable pub remove_names : List (List ℕ) → h.Map → h.Map
  remove_names [] m = m
  remove_names (name ∷ names) m = remove_names names (h.remove name m)

  unfoldable pub apply_options : List HeaderValueOption → h.Map → h.Map
  unfolding apply_option
  apply_options [] m = m
  apply_options (option ∷ options) m = apply_options options (apply_option option m)

  unfoldable pub modify : HeaderModifier → h.Map → h.Map
  unfolding remove_names apply_options
  modify modifier m = apply_options modifier.add (remove_names modifier.remove m)

  -- The modifiers of the configuration, the virtual host and the route.
  unfoldable pub mutate_headers :
      Bool → HeaderModifier → HeaderModifier → HeaderModifier → h.Map → h.Map
  unfolding modify
  mutate_headers most_specific_header_mutations_wins config host route m =
      if most_specific_header_mutations_wins
      then modify route (modify host (modify config m))
      else modify config (modify host (modify route m))
