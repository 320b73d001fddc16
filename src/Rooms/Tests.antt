-- ===== src/Rooms/Tests.antt =====
-- Rooms with concrete clients, and their theorems there.
use droid_swarm.Prelude.{
  String, Bool, true, false, none, List, [], ◌∷◌, get, put, remove, ◌≡◌, refl, ends_with,
}
use droid_swarm.Rooms.Room.{ConnectedClient, broadcast, add_client}
use droid_swarm.Rooms.Manager.{
  Event, join, leave, run, join_room, leave_room, broadcast_room, channel_type_for_room,
}
use droid_swarm.Rooms.Names.{IsHall, run-IsHall}

abbrev client : String → String → Bool → ConnectedClient
client id name privileged = record {
  connection_id = id;
  agent_name = name;
  privileged = privileged;
  room_id = "t-execution";
  is_open = true;
}

abbrev meeting : List Event
meeting =
    join (client "1" "Coder-01" false)
    ∷ join (client "2" "Coder-01" false)
    ∷ join (client "3" "Coder-01" true)
    ∷ leave "t-execution" "1"
    ∷ []

-- The second client has the name of the first, and is turned away.
met : broadcast_room "t-execution" none (run meeting []) ≡ "3" ∷ []
unfolding run join_room leave_room broadcast_room broadcast add_client get put remove
    channel_type_for_room ends_with
met = refl

run-IsHall_example : IsHall (run meeting [])
run-IsHall_example = run-IsHall meeting
