-- ===== src/Rooms/Broadcast.antt =====
-- Whom a broadcast reaches (apps/socket-server/src/rooms/Room.ts).
use droid_swarm.Prelude.{
  String, Bool, not, ◌&&◌, ◌==◌, any, truthy, get_or, Option, List, [], ◌∷◌, values, ◌≡◌, refl,
  arith, Bool-cases, inl, inr,
}
use droid_swarm.Prelude.Sets.{has}
use droid_swarm.Rooms.Room.{ConnectedClient, Room, broadcast, broadcast_to}

-- The connection is the client's, its socket is open, and it is not the excluded one.
abbrev pub reached : Option String → String → ConnectedClient → Bool
reached exclude id client =
    (client.connection_id == id)
    && client.is_open
    && not (truthy exclude && (client.connection_id == get_or exclude ""))

broadcast_to-reached :
    (exclude : Option String) (id : String) (clients : List ConnectedClient)
    → has (broadcast_to exclude clients) id ≡ any (reached exclude id) clients
unfolding has
broadcast_to-reached exclude id [] = refl
broadcast_to-reached exclude id (c ∷ cs) =
    elim (Bool-cases (truthy exclude && (c.connection_id == get_or exclude ""))) [
      | inl out ↦ rw out (ground (arith, broadcast_to-reached exclude id cs))
      | inr kept ↦ rw kept (ground (arith, broadcast_to-reached exclude id cs))
    ]

-- A broadcast is written to exactly the connections of the room whose socket is open, the excluded
-- one left out.
broadcast-reached :
    (exclude : Option String) (room : Room) (id : String)
    → has (broadcast exclude room) id ≡ any (reached exclude id) (values room.clients)
unfolding broadcast
broadcast-reached exclude room id = broadcast_to-reached exclude id (values room.clients)
