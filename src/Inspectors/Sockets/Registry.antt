-- ===== src/Inspectors/Sockets/Registry.antt =====
-- inspector_websocket.go: RegisterWSConnection, UnregisterWSConnection, WSIncrementSent,
-- WSIncrementRecv and WSJoinRoom. Counts are natural numbers and do not wrap.
use go_debug_agent.Prelude.{
  ℕ, ◌+◌, Bool, false, ◌||◌, not, List, [], ◌∷◌, ◌++◌, map, none, some, if◌then◌else◌, length,
  select,
}
use go_debug_agent.Prelude.Map
use go_debug_agent.Prelude.Map.{text_key}
use go_debug_agent.Prelude.Text.{Text, text_eq}

pub record WsConnInfo : Type 0 where
  pub id : Text
  pub remote_address : Text
  pub connected_since : ℕ
  pub messages_sent : ℕ
  pub messages_recv : ℕ
  pub bytes_sent : ℕ
  pub bytes_recv : ℕ
  pub room : Text

pub record WsGlobal : Type 0 where
  pub total_connections : ℕ
  pub active_connections : ℕ
  pub total_sent : ℕ
  pub total_recv : ℕ
  pub total_bytes_sent : ℕ
  pub total_bytes_recv : ℕ

pub record WsRoom : Type 0 where
  pub name : Text
  pub subscribers : ℕ
  pub members : List Text

pub record WsState : Type 0 where
  pub connections : List (Text × WsConnInfo)
  pub rooms : List (Text × WsRoom)
  pub global : WsGlobal

abbrev pub ws_start : WsState
ws_start = record {
  connections = [];
  rooms = [];
  global = record {
    total_connections = 0;
    active_connections = 0;
    total_sent = 0;
    total_recv = 0;
    total_bytes_sent = 0;
    total_bytes_recv = 0;
  };
}

-- `remote` is what extractWSRemoteAddr finds by reflection, or "".
unfoldable pub register_ws_connection : ℕ → Text → Text → WsState → WsState
register_ws_connection now id remote s =
    let info : WsConnInfo = record {
      id = id;
      remote_address = remote;
      connected_since = now;
      messages_sent = 0;
      messages_recv = 0;
      bytes_sent = 0;
      bytes_recv = 0;
      room = [];
    } in
    let connections = Map.insert id info s.connections in
    record s {
      connections = connections;
      global = record s.global {
        total_connections = s.global.total_connections + 1;
        active_connections = length connections;
      };
    }

-- The loop over a room's members.
unfoldable pub leave_room : Text → WsRoom → WsRoom
leave_room id room =
    let members = select (λ m. not (text_eq m id)) room.members in
    record room { members = members; subscribers = length members }

unfoldable pub unregister_ws_connection : Text → WsState → WsState
unregister_ws_connection id s =
    let connections = Map.delete id s.connections in
    record {
      connections = connections;
      rooms = map (λ r. (r.0, leave_room id r.1)) s.rooms;
      global = record s.global { active_connections = length connections };
    }

-- if conn, ok := wsConnections[id]; ok { ...; wsConnections[id] = conn }
unfoldable pub update_connection :
    (WsConnInfo → WsConnInfo) → Text → List (Text × WsConnInfo) → List (Text × WsConnInfo)
update_connection change id connections = elim (Map.lookup id connections) [
  | none ↦ connections
  | some conn ↦ Map.insert id (change conn) connections
]

unfoldable pub ws_increment_sent : Text → ℕ → WsState → WsState
ws_increment_sent id bytes s = record s {
  connections =
      update_connection
        (λ c. record c { messages_sent = c.messages_sent + 1; bytes_sent = c.bytes_sent + bytes })
        id s.connections;
  global = record s.global {
    total_sent = s.global.total_sent + 1;
    total_bytes_sent = s.global.total_bytes_sent + bytes;
  };
}

unfoldable pub ws_increment_recv : Text → ℕ → WsState → WsState
ws_increment_recv id bytes s = record s {
  connections =
      update_connection
        (λ c. record c { messages_recv = c.messages_recv + 1; bytes_recv = c.bytes_recv + bytes })
        id s.connections;
  global = record s.global {
    total_recv = s.global.total_recv + 1;
    total_bytes_recv = s.global.total_bytes_recv + bytes;
  };
}

-- The loop that looks for a member.
unfoldable pub has_member : Text → List Text → Bool
has_member id [] = false
has_member id (m ∷ ms) = text_eq m id || has_member id ms

unfoldable pub room_at : Text → List (Text × WsRoom) → WsRoom
room_at room_name rooms = elim (Map.lookup room_name rooms) [
  | none ↦ record { name = room_name; subscribers = 0; members = [] }
  | some room ↦ room
]

unfoldable pub ws_join_room : Text → Text → WsState → WsState
ws_join_room room_name conn_id s =
    let room = room_at room_name s.rooms in
    if has_member conn_id room.members
    then s
    else (let members = room.members ++ conn_id ∷ [] in
        record s {
          rooms =
              Map.insert room_name (record room { members = members; subscribers = length members })
                s.rooms;
          connections =
              update_connection (λ c. record c { room = room_name }) conn_id s.connections;
        })
