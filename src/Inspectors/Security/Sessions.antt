-- ===== src/Inspectors/Security/Sessions.antt =====
-- inspector_security.go: RegisterAuthConfig, RegisterSessionStore, extractSessionInfo, and the tools
-- get_auth_config and get_active_sessions. A range meets a map's entries in their order here.
use go_debug_agent.Prelude.{
  ◌&&◌, not, List, [], ◌∷◌, ◌++◌, Option, none, some, if◌then◌else◌, length, is_empty,
}
use go_debug_agent.Prelude.Map
use go_debug_agent.Prelude.Map.{text_key}
use go_debug_agent.Prelude.Text.{Text, ascii, text_eq}
use go_debug_agent.Registry.Value.{Value, str}
use go_debug_agent.Inspectors.Base.{object, array, count_value}
use go_debug_agent.Inspectors.Security.Secrets.{AuthConfig, extract_auth_fields}

-- A session store: one with a method that lists sessions, and what the method returns first, if it
-- does; a map of sessions by id, without those that cannot be read; a nil pointer; a struct; or a
-- value of another kind.
pub data SessionStore (X : Type 0) : Type 0 where
  listing : Option (Value X) → SessionStore X
  sessions : List (Value X × AuthConfig X) → SessionStore X
  nil_store : SessionStore X
  struct_store : AuthConfig X → SessionStore X
  other_store : SessionStore X

-- registeredAuthConfigs and registeredSessionStores.
pub record SecurityState (X : Type 0) : Type 0 where
  pub auth_configs : List (Text × AuthConfig X)
  pub session_stores : List (Text × SessionStore X)

module _ {X : Type 0} where
  unfoldable pub register_auth_config : Text → AuthConfig X → SecurityState X → SecurityState X
  register_auth_config name config s = record s {
    auth_configs = Map.insert name config s.auth_configs;
  }

  unfoldable pub register_session_store : Text → SessionStore X → SecurityState X → SecurityState X
  register_session_store name store s = record s {
    session_stores = Map.insert name store s.session_stores;
  }

  unfoldable pub auth_entries : List (Text × AuthConfig X) → List (Value X)
  auth_entries [] = []
  auth_entries ((name, cfg) ∷ cfgs) =
      object (extract_auth_fields cfg ((ascii "name", str name) ∷ [])) ∷ auth_entries cfgs

  unfoldable pub get_auth_config : SecurityState X → Value X
  get_auth_config s =
      if is_empty s.auth_configs
      then object (
          (
            ascii "message",
            str (
                ascii
                  "No auth configs registered. Call debugagent.RegisterAuthConfig(name, config) "
                ++ ascii "to enable security inspection."),
          )
          ∷ (ascii "count", count_value 0)
          ∷ [])
      else object (
          (ascii "count", count_value (length s.auth_configs))
          ∷ (ascii "configs", array (auth_entries s.auth_configs))
          ∷ [])

  unfoldable pub session_entries : List (Value X × AuthConfig X) → List (Value X)
  session_entries [] = []
  session_entries ((id, session) ∷ rest) =
      object (extract_auth_fields session ((ascii "session_id", id) ∷ [])) ∷ session_entries rest

  unfoldable pub extract_session_info :
      SessionStore X → List (Text × Value X) → List (Text × Value X)
  extract_session_info (listing none) entry = entry
  extract_session_info (listing (some result)) entry = Map.insert (ascii "sessions") result entry
  extract_session_info (sessions ss) entry =
      let listed = session_entries ss in
      Map.insert (ascii "active_count") (count_value (length listed))
        (Map.insert (ascii "sessions") (array listed) entry)
  extract_session_info nil_store entry = entry
  extract_session_info (struct_store store) entry = extract_auth_fields store entry
  extract_session_info other_store entry = entry

  unfoldable pub store_entries : Text → List (Text × SessionStore X) → List (Value X)
  store_entries target [] = []
  store_entries target ((name, store) ∷ stores) =
      let rest = store_entries target stores in
      if not (is_empty target) && not (text_eq target name)
      then rest
      else object (extract_session_info store ((ascii "name", str name) ∷ [])) ∷ rest

  -- The store that is asked for is "" where it is missing.
  unfoldable pub get_active_sessions : Text → SecurityState X → Value X
  get_active_sessions target s =
      if is_empty s.session_stores
      then object (
          (
            ascii "message",
            str (
                ascii
                  "No session stores registered. Call debugagent.RegisterSessionStore(name, store)"
                ++ ascii " to enable session inspection."),
          )
          ∷ (ascii "count", count_value 0)
          ∷ [])
      else (let stores = store_entries target s.session_stores in
          object
            ((ascii "count", count_value (length stores)) ∷ (ascii "stores", array stores) ∷ []))
