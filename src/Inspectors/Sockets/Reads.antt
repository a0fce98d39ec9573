-- ===== src/Inspectors/Sockets/Reads.antt =====
-- inspector_websocket.go: the tools get_ws_connections, get_ws_stats and get_ws_rooms, with the maps
-- in the order of the range.
use go_debug_agent.Prelude.{
  ℕ, ◌+◌, ◌-◌, ◌/◌, List, [], ◌∷◌, ◌++◌, map, if◌then◌else◌, length, is_empty, ltb,
}
use go_debug_agent.Prelude.Text.{Text, ascii}
use go_debug_agent.Registry.Value.{Value, str}
use go_debug_agent.Inspectors.Base.{Format, object, array, count_value}
use go_debug_agent.Inspectors.Sockets.Registry.{WsConnInfo, WsRoom, WsState}

module _ {X : Type 0} (fmt : Format) (now : ℕ) where
  unfoldable pub connection_value : Text × WsConnInfo → Value X
  connection_value c =
      let info = c.1 in
      object (
        (ascii "id", str c.0)
        ∷ (ascii "remote_address", str info.remote_address)
        ∷ (ascii "connected_since", str (fmt.rfc3339 info.connected_since))
        ∷ (ascii "duration", str (fmt.uptime (now - info.connected_since)))
        ∷ (ascii "messages_sent", count_value info.messages_sent)
        ∷ (ascii "messages_recv", count_value info.messages_recv)
        ∷ (ascii "bytes_sent", count_value info.bytes_sent)
        ∷ (ascii "bytes_recv", count_value info.bytes_recv)
        ∷ (if is_empty info.room then [] else (ascii "room", str info.room) ∷ []))

  unfoldable pub get_ws_connections : List (Text × WsConnInfo) → Value X
  get_ws_connections [] = object (
      (
        ascii "message",
        str (
            ascii
              "No WebSocket connections registered. Call debugagent.RegisterWSConnection(id, conn) "
            ++ ascii "to enable WebSocket inspection."),
      )
      ∷ (ascii "count", count_value 0)
      ∷ [])
  get_ws_connections (c ∷ cs) = object (
      (ascii "count", count_value (length (c ∷ cs)))
      ∷ (ascii "connections", array (map connection_value (c ∷ cs)))
      ∷ [])

unfoldable pub sum_of : (WsConnInfo → ℕ) → List (Text × WsConnInfo) → ℕ
sum_of f [] = 0
sum_of f (c ∷ cs) = f c.1 + sum_of f cs

module _ {X : Type 0} where
  unfoldable pub average_fields : List (Text × WsConnInfo) → List (Text × Value X)
  average_fields [] = []
  average_fields (c ∷ cs) =
      let n = length (c ∷ cs) in
      (ascii "avg_sent_per_conn", count_value (sum_of (λ i. i.messages_sent) (c ∷ cs) / n))
      ∷ (ascii "avg_recv_per_conn", count_value (sum_of (λ i. i.messages_recv) (c ∷ cs) / n))
      ∷ []

  unfoldable pub get_ws_stats : WsState → Value X
  get_ws_stats s =
      let g = s.global in
      let total_msgs = g.total_sent + g.total_recv in
      let total_bytes = g.total_bytes_sent + g.total_bytes_recv in
      object (
        (ascii "total_connections", count_value g.total_connections)
        ∷ (ascii "active_connections", count_value g.active_connections)
        ∷ (ascii "total_messages_sent", count_value g.total_sent)
        ∷ (ascii "total_messages_recv", count_value g.total_recv)
        ∷ (ascii "total_bytes_sent", count_value g.total_bytes_sent)
        ∷ (ascii "total_bytes_recv", count_value g.total_bytes_recv)
        ∷ (
          ascii "avg_message_size_bytes",
          count_value (if ltb 0 total_msgs then total_bytes / total_msgs else 0),
        )
        ∷ average_fields s.connections)

  unfoldable pub get_ws_rooms : List (Text × WsRoom) → Value X
  get_ws_rooms [] = object (
      (
        ascii "message",
        str (
            ascii "No WebSocket rooms registered. Call debugagent.WSJoinRoom(roomName, connID) "
            ++ ascii "to enable room inspection."),
      )
      ∷ (ascii "count", count_value 0)
      ∷ [])
  get_ws_rooms (r ∷ rs) =
      let room_value : Text × WsRoom → Value X = λ room. object (
        (ascii "name", str room.0)
        ∷ (ascii "subscribers", count_value room.1.subscribers)
        ∷ (ascii "members", array (map str room.1.members))
        ∷ []) in
      object (
        (ascii "count", count_value (length (r ∷ rs)))
        ∷ (ascii "rooms", array (map room_value (r ∷ rs)))
        ∷ [])
