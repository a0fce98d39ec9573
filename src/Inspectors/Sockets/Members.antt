-- ===== src/Inspectors/Sockets/Members.antt =====
-- inspector_websocket.go: the counts of connections and the members of the rooms.
use go_debug_agent.Prelude.{
  ℕ, ◌≡◌, refl, sym, ◌∙◌, false, ◌||◌, not, List, [], ◌∷◌, ◌++◌, map, if◌then◌else◌, length, select,
  arith, Bool-cases, Option-cases, inl, inr,
}
use go_debug_agent.Prelude.Map
use go_debug_agent.Prelude.Map.{text_key}
use go_debug_agent.Prelude.Text.{Text, text_eq, text_eq_iff, text_eq_comm}
use go_debug_agent.Inspectors.Sockets.Registry.{
  WsConnInfo, WsRoom, WsState, ws_start, register_ws_connection, leave_room,
  unregister_ws_connection, update_connection, ws_increment_sent, ws_increment_recv, has_member,
  room_at, ws_join_room,
}

-- No member stands twice.
abbrev pub IsUnique : List Text → Type 0
IsUnique [] = Unit
IsUnique (m ∷ ms) = (has_member m ms ≡ false) × IsUnique ms

-- A room counts its members, and none stands twice.
pub record IsRoom (r : WsRoom) : Type 0 where
  pub counted : r.subscribers ≡ length r.members
  pub unique : IsUnique r.members

abbrev pub AllRooms : List (Text × WsRoom) → Type 0
AllRooms [] = Unit
AllRooms (r ∷ rs) = IsRoom r.1 × AllRooms rs

pub record IsTracked (s : WsState) : Type 0 where
  pub active : s.global.active_connections ≡ length s.connections
  pub rooms : AllRooms s.rooms

-- The calls of the package.
pub data WsCall : Type 0 where
  register : ℕ → Text → Text → WsCall
  unregister : Text → WsCall
  sent : Text → ℕ → WsCall
  received : Text → ℕ → WsCall
  join : Text → Text → WsCall

unfoldable pub ws_run : WsState → List WsCall → WsState
ws_run s [] = s
ws_run s (register now id remote ∷ cs) = ws_run (register_ws_connection now id remote s) cs
ws_run s (unregister id ∷ cs) = ws_run (unregister_ws_connection id s) cs
ws_run s (sent id bytes ∷ cs) = ws_run (ws_increment_sent id bytes s) cs
ws_run s (received id bytes ∷ cs) = ws_run (ws_increment_recv id bytes s) cs
ws_run s (join room id ∷ cs) = ws_run (ws_join_room room id s) cs

has_member-append :
    (q id : Text) (ms : List Text)
    → has_member q (ms ++ id ∷ []) ≡ (has_member q ms || text_eq id q)
unfolding has_member
has_member-append q id [] = ground arith
has_member-append q id (m ∷ ms) = ground (arith, has_member-append q id ms)

IsUnique-append :
    (id : Text) (ms : List Text) → has_member id ms ≡ false → IsUnique ms → IsUnique (ms ++ id ∷ [])
unfolding has_member
IsUnique-append id [] h u = (refl, tt)
IsUnique-append id (m ∷ ms) h u = (
  ground (arith, has_member-append m id ms, text_eq_comm m id, u.0, h),
  IsUnique-append id ms (ground (arith, h)) u.1,
)

has_member-select :
    (q id : Text) (ms : List Text)
    → has_member q (select (λ m. not (text_eq m id)) ms)
      ≡ (if text_eq q id then false else has_member q ms)
unfolding has_member
has_member-select q id [] = ground arith
has_member-select q id (m ∷ ms) =
    ground (arith, has_member-select q id ms, text_eq_iff m id, text_eq_iff q id, text_eq_iff m q)

IsUnique-select :
    (id : Text) (ms : List Text) → IsUnique ms → IsUnique (select (λ m. not (text_eq m id)) ms)
IsUnique-select id [] u = tt
IsUnique-select id (m ∷ ms) u = elim (Bool-cases (text_eq m id)) [
  | inl e ↦ rw (e, IsUnique) (IsUnique-select id ms u.1)
  | inr e ↦
      rw (e, IsUnique) (ground (arith, has_member-select m id ms, u.0), IsUnique-select id ms u.1)
]

AllRooms-leave_room :
    (id : Text) (rs : List (Text × WsRoom))
    → AllRooms rs
    → AllRooms (map (λ r. (r.0, leave_room id r.1)) rs)
unfolding leave_room
AllRooms-leave_room id [] h = tt
AllRooms-leave_room id (r ∷ rs) h = (
  record { counted = refl; unique = IsUnique-select id r.1.members h.0.unique },
  AllRooms-leave_room id rs h.1,
)

AllRooms-insert :
    (name : Text) (room : WsRoom) (rs : List (Text × WsRoom))
    → IsRoom room
    → AllRooms rs
    → AllRooms (Map.insert name room rs)
unfolding Map.insert
AllRooms-insert name room [] i h = (i, tt)
AllRooms-insert name room ((k, r) ∷ rs) i h = elim (Bool-cases (text_eq k name)) [
  | inl e ↦ rw e (i, h.1)
  | inr e ↦ rw e (h.0, AllRooms-insert name room rs i h.1)
]

room_at-IsRoom : (name : Text) (rs : List (Text × WsRoom)) → AllRooms rs → IsRoom (room_at name rs)
unfolding room_at Map.lookup
room_at-IsRoom name [] h = record { counted = refl; unique = tt }
room_at-IsRoom name ((k, r) ∷ rs) h = elim (Bool-cases (text_eq k name)) [
  | inl e ↦ rw (e, room_at) (h.0)
  | inr e ↦ rw (e, room_at) (room_at-IsRoom name rs h.1)
]

length-update_connection :
    (change : WsConnInfo → WsConnInfo) (id : Text) (cs : List (Text × WsConnInfo))
    → length (update_connection change id cs) ≡ length cs
unfolding update_connection
length-update_connection change id cs = elim (Option-cases (Map.lookup id cs)) [
  | inl e ↦ ground (arith, e)
  | inr (c, e) ↦ ground (arith, e, Map.length-insert id (change c) cs)
]

ws_join_room-IsTracked :
    (room id : Text) (s : WsState) → IsTracked s → IsTracked (ws_join_room room id s)
unfolding ws_join_room
ws_join_room-IsTracked name id s t =
    let room = room_at name s.rooms in
    let good = room_at-IsRoom name s.rooms t.rooms in
    elim (Bool-cases (has_member id room.members)) [
      | inl e ↦ rw e t
      | inr e ↦ rw e (record {
        active = t.active ∙ sym (length-update_connection _ id s.connections);
        rooms =
            AllRooms-insert name _ s.rooms
              (record { counted = refl; unique = IsUnique-append id room.members e good.unique })
              t.rooms;
      })
    ]

-- After any calls of the package, the active connections are counted right, and every room counts
-- its members, of which none stands twice.
pub ws_run-IsTracked : (cs : List WsCall) → IsTracked (ws_run ws_start cs)
unfolding ws_run register_ws_connection unregister_ws_connection ws_increment_sent ws_increment_recv
ws_run-IsTracked cs = tracked ws_start cs (record { active = refl; rooms = tt })
  where
    tracked : (s : WsState) (cs : List WsCall) → IsTracked s → IsTracked (ws_run s cs)
    tracked s [] t = t
    tracked s (register now id remote ∷ cs) t =
        tracked _ cs (record { active = refl; rooms = t.rooms })
    tracked s (unregister id ∷ cs) t =
        tracked _ cs (record { active = refl; rooms = AllRooms-leave_room id s.rooms t.rooms })
    tracked s (sent id bytes ∷ cs) t = tracked _ cs (record {
      active = t.active ∙ sym (length-update_connection _ id s.connections);
      rooms = t.rooms;
    })
    tracked s (received id bytes ∷ cs) t = tracked _ cs (record {
      active = t.active ∙ sym (length-update_connection _ id s.connections);
      rooms = t.rooms;
    })
    tracked s (join room id ∷ cs) t =
        tracked (ws_join_room room id s) cs (ws_join_room-IsTracked room id s t)
