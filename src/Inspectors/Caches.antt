-- ===== src/Inspectors/Caches.antt =====
-- inspector_cache.go: the registered caches and the three tools. What reflection shows of a cache that
-- is no sync.Map, and its methods, are parameters that act on a world; a Go value is printed by
-- fmt.Sprintf already. sort.Strings and the order of a range are parameters too.
use go_debug_agent.Prelude.{
  ℕ, Bool, ◌||◌, ◌&&◌, not, List, [], ◌∷◌, ◌++◌, map, Option, none, some, length, if◌then◌else◌,
  is_empty, leb, ltb,
}
use go_debug_agent.Prelude.Map
use go_debug_agent.Prelude.Map.{text_key}
use go_debug_agent.Prelude.Int.{ℤ, pos}
use go_debug_agent.Prelude.Result.{Result, ok, err}
use go_debug_agent.Prelude.Text.{Text, ascii, text_eq, has_prefix}
use go_debug_agent.Registry.Value.{Value, str}
use go_debug_agent.Inspectors.Base.{object, array, count_value}

-- A cache of a third party: its type without pointers and as %T prints it, whether its chain of pointers ends in nil, and its methods,
-- `none` where it has no method of this name and result. A method that is called changes the world.
pub record CacheMethods (W X : Type 0) : Type 0 where
  pub type_name : Text
  pub printed_type : Text
  pub is_nil : Bool
  pub stats : W → Option (Value X)
  pub len : W → Option ℕ
  pub item_count : W → Option ℕ
  pub metrics : W → Option (Value X)
  pub items : W → Option (List Text)
  pub keys : W → Option (List Text)
  pub get_keys : W → Option (List Text)
  pub clear_method : Option (W → W)
  pub flush_method : Option (W → W)
  pub reset_method : Option (W → W)
  pub purge_method : Option (W → W)

-- A sync.Map has its keys, in the order of Range.
pub data Cache (W X : Type 0) : Type 0 where
  nil_cache : Cache W X
  sync_map : List Text → Cache W X
  reflected : CacheMethods W X → Cache W X

-- The loop over keys: those with the prefix, until there are `limit` of them.
unfoldable pub matching_keys : Text → ℕ → List Text → List Text → List Text
matching_keys prefix limit kept [] = kept
matching_keys prefix limit kept (key ∷ visited) =
    let grown = kept ++ key ∷ [] in
    let rest = matching_keys prefix limit grown visited in
    let skipped = matching_keys prefix limit kept visited in
    if is_empty prefix || has_prefix key prefix
    then (if leb limit (length grown) then grown else rest)
    else skipped

unfoldable pub optional_field : {X : Type 0} → Text → Option (Value X) → List (Text × Value X)
optional_field key none = []
optional_field key (some value) = (key, value) ∷ []

-- key_count, which ItemCount overwrites.
unfoldable pub key_count : {X : Type 0} → Option ℕ → Option ℕ → List (Text × Value X)
key_count len (some n) = (ascii "key_count", count_value n) ∷ []
key_count (some n) none = (ascii "key_count", count_value n) ∷ []
key_count none none = []

-- The methods Keys and GetKeys, the first that there is, and nil.
unfoldable pub keys_of : Text → ℕ → Option (List Text) → Option (List Text) → List Text
keys_of prefix limit (some keys) get_keys = matching_keys prefix limit [] keys
keys_of prefix limit none (some keys) = matching_keys prefix limit [] keys
keys_of prefix limit none none = []

-- The first method that there is.
unfoldable pub first_method : {W : Type 0} → Option (W → W) → Option (W → W) → Option (W → W)
first_method none g = g
first_method (some f) g = some f

-- The limit that is asked for, or 100.
unfoldable pub key_limit : Option ℤ → ℕ
key_limit (some (pos n)) = if ltb 0 n then n else 100
key_limit _ = 100

module _ {W X : Type 0} where
  unfoldable pub register_cache :
      Text → Cache W X → List (Text × Cache W X) → List (Text × Cache W X)
  register_cache name cache caches = Map.insert name cache caches

  unfoldable pub inspect_cache : Text → Cache W X → W → Value X
  inspect_cache name nil_cache w =
      object ((ascii "name", str name) ∷ (ascii "error", str (ascii "nil cache")) ∷ [])
  inspect_cache name (sync_map visited) w = object (
      (ascii "name", str name)
      ∷ (ascii "type", str (ascii "sync.Map"))
      ∷ (ascii "key_count", count_value (length visited))
      ∷ [])
  inspect_cache name (reflected c) w =
      if c.is_nil
      then object ((ascii "name", str name) ∷ (ascii "error", str (ascii "nil pointer")) ∷ [])
      else object (
          (ascii "name", str name)
            ∷ (ascii "type", str c.type_name)
            ∷ optional_field (ascii "stats") (c.stats w)
          ++ key_count (c.len w) (c.item_count w)
          ++ optional_field (ascii "metrics") (c.metrics w))

  -- A panic, of reflection on nil, is `none`.
  unfoldable pub extract_cache_keys :
      (List Text → List Text) → Cache W X → Text → ℕ → W → Option (List Text)
  extract_cache_keys sort_strings nil_cache prefix limit w = none
  extract_cache_keys sort_strings (sync_map visited) prefix limit w =
      some (sort_strings (matching_keys prefix limit [] visited))
  extract_cache_keys sort_strings (reflected c) prefix limit w =
      if c.is_nil then some [] else elim (c.items w) [
        | some visited ↦ some (sort_strings (matching_keys prefix limit [] visited))
        | none ↦ some (keys_of prefix limit (c.keys w) (c.get_keys w))
      ]

  -- clearCache, with an error where there is no method to call, and `none` where it panics.
  unfoldable pub clear_cache_of : Cache W X → W → Option (Result Text (Cache W X × W))
  clear_cache_of nil_cache w = none
  clear_cache_of (sync_map visited) w = some (ok (sync_map [], w))
  clear_cache_of (reflected c) w =
      elim (first_method c.clear_method
        (first_method c.flush_method (first_method c.reset_method c.purge_method))) [
          | some call ↦ some (ok (reflected c, call w))
          | none ↦ some (
              err (
                ascii "cache type "
                ++ (c.printed_type ++ ascii " does not support Clear/Flush/Reset/Purge")))
        ]

  -- The loop of get_cache_stats over what a range visits.
  unfoldable pub listed_caches : Text → List (Text × Cache W X) → W → List (Value X)
  listed_caches filter_name [] w = []
  listed_caches filter_name ((name, c) ∷ visited) w =
      let rest = listed_caches filter_name visited w in
      if not (is_empty filter_name) && not (text_eq name filter_name)
      then rest
      else inspect_cache name c w ∷ rest

  unfoldable pub get_cache_stats :
      (List (Text × Cache W X) → List (Text × Cache W X))
      → Text
      → List (Text × Cache W X)
      → W
      → Value X
  get_cache_stats range filter_name [] w = object (
      (
        ascii "message",
        str (
            ascii
              "No caches registered. Call RegisterCache(name, cache) to enable cache inspection."),
      )
      ∷ (ascii "count", count_value 0)
      ∷ [])
  get_cache_stats range filter_name (c ∷ cs) w =
      let caches = listed_caches filter_name (range (c ∷ cs)) w in
      object ((ascii "count", count_value (length caches)) ∷ (ascii "caches", array caches) ∷ [])

  -- A cache by its name, or the tool's error. `quote` is the verb %q.
  unfoldable pub cache_named :
      (Text → Text) → Text → List (Text × Cache W X) → Result Text (Cache W X)
  cache_named quote name caches =
      if is_empty name
      then err (ascii "cache_name is required")
      else elim (Map.lookup name caches) [
        | none ↦ err (ascii "cache " ++ (quote name ++ ascii " not registered"))
        | some c ↦ ok c
      ]

  unfoldable pub get_cache_keys :
      (Text → Text)
      → (List Text → List Text)
      → Text
      → Text
      → Option ℤ
      → List (Text × Cache W X)
      → W
      → Option (Result Text (Value X))
  get_cache_keys quote sort_strings name prefix limit caches w =
      elim (cache_named quote name caches) [
        | err e ↦ some (err e)
        | ok c ↦ elim (extract_cache_keys sort_strings c prefix (key_limit limit) w) [
          | none ↦ none
          | some keys ↦ some (
              ok (
                object (
                  (ascii "cache_name", str name)
                  ∷ (ascii "count", count_value (length keys))
                  ∷ (ascii "keys", array (map str keys))
                  ∷ [])))
        ]
      ]

  -- The answer with the registry and the world after it.
  unfoldable pub clear_cache :
      (Text → Text)
      → Text
      → List (Text × Cache W X)
      → W
      → Option (Result Text (Value X × List (Text × Cache W X) × W))
  clear_cache quote name caches w = elim (cache_named quote name caches) [
    | err e ↦ some (err e)
    | ok c ↦ elim (clear_cache_of c w) [
      | none ↦ none
      | some (err e) ↦ some (err e)
      | some (ok (c', w')) ↦ some (
          ok (
            object ((ascii "cache_name", str name) ∷ (ascii "status", str (ascii "cleared")) ∷ []),
            Map.insert name c' caches,
            w',
          ))
    ]
  ]
