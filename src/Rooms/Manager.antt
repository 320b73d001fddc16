-- ===== src/Rooms/Manager.antt =====
-- `RoomManager` of apps/socket-server/src/rooms/RoomManager.ts.
use droid_swarm.Prelude.{
  String, Bool, true, false, ◌==◌, if◌then◌else◌, Option, none, some, List, [], ◌∷◌, Map, get, put,
  remove, keys, ends_with,
}
use droid_swarm.Rooms.Room.{
  ConnectedClient, ChannelType, operator, task, planning, execution, review, Room, AddResult, added,
  duplicate, add_client, remove_client, broadcast,
}

-- `channelTypeForRoom`
unfoldable pub channel_type_for_room : String → ChannelType
channel_type_for_room room_id =
    if room_id == "operator"
    then operator
    else if ends_with room_id "-planning"
    then planning
    else if ends_with room_id "-review"
    then review
    else if ends_with room_id "-execution"
    then execution
    else task

abbrev pub new_room : String → Room
new_room room_id = record {
  room_id = room_id;
  channel_type = channel_type_for_room room_id;
  clients = [];
}

-- `getOrCreateRoom`: the room, and the rooms with it
abbrev pub room_or_new : String → Option Room → Room
room_or_new room_id none = new_room room_id
room_or_new room_id (some room) = room

abbrev pub or_create : String → Option Room → Map Room → Map Room
or_create room_id none rooms = put rooms room_id (new_room room_id)
or_create room_id (some room) rooms = rooms

-- `addClient`; the error of the room is thrown with the rooms as `getOrCreateRoom` left them.
abbrev pub after_add : String → Map Room → AddResult → Map Room × Option String
after_add room_id rooms (added room) = (put rooms room_id room, none)
after_add room_id rooms (duplicate error) = (rooms, some error)

unfoldable pub join_room : ConnectedClient → Map Room → Map Room × Option String
join_room client rooms =
    after_add client.room_id (or_create client.room_id (get rooms client.room_id) rooms)
      (add_client client (room_or_new client.room_id (get rooms client.room_id)))

abbrev pub is_empty {ℓ} : {V : Type ℓ} → Map V → Bool
is_empty [] = true
is_empty (e ∷ m) = false

-- `removeClient`
abbrev pub without : String → String → Option Room → Map Room → Map Room
without room_id connection_id none rooms = rooms
without room_id connection_id (some room) rooms =
    let left = remove_client connection_id room in
    if is_empty left.clients then remove rooms room_id else put rooms room_id left

unfoldable pub leave_room : String → String → Map Room → Map Room
leave_room room_id connection_id rooms = without room_id connection_id (get rooms room_id) rooms

-- `broadcast`
unfoldable pub broadcast_room : String → Option String → Map Room → List String
broadcast_room room_id exclude rooms = elim (get rooms room_id) [
  | none ↦ []
  | some room ↦ broadcast exclude room
]

-- `listRoomIds`
abbrev pub list_room_ids : Map Room → List String
list_room_ids rooms = keys rooms

-- What a connection does
pub data Event : Type 0 where
  join : ConnectedClient → Event
  leave : String → String → Event

unfoldable pub run : List Event → Map Room → Map Room
run [] rooms = rooms
run (join client ∷ events) rooms = run events (join_room client rooms).0
run (leave room_id connection_id ∷ events) rooms =
    run events (leave_room room_id connection_id rooms)
