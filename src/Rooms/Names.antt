-- ===== src/Rooms/Names.antt =====
-- The clients of a room, after any joins and leaves (apps/socket-server/src/rooms).
use droid_swarm.Prelude.{
  String, false, ◌==◌, any, Option, none, some, List, [], ◌∷◌, Map, get, put, remove, values,
  get-put, get-remove, ◌≡◌, refl, subst, ◌∙◌, inl, inr, arith, eq_iff, Bool-cases,
}
use droid_swarm.Rooms.Room.{ConnectedClient, Room, conflicts, name_conflict, add_client}
use droid_swarm.Rooms.Manager.{
  room_or_new, or_create, after_add, join_room, is_empty, without, leave_room, Event, join, leave,
  run,
}

-- No two of the clients have a conflict of names.
abbrev pub NamesApart : Map ConnectedClient → Type 0
NamesApart [] = Unit
NamesApart ((k, c) ∷ m) = (any (conflicts c) (values m) ≡ false) × NamesApart m

conflicts_comm : (c d : ConnectedClient) → conflicts c d ≡ conflicts d c
conflicts_comm c d =
    ground (arith, eq_iff c.agent_name d.agent_name, eq_iff d.agent_name c.agent_name)

-- A client without a conflict may be written into the room.
any-put :
    (c d : ConnectedClient) (k : String) (m : Map ConnectedClient)
    → any (conflicts c) (values m) ≡ false
    → conflicts c d ≡ false
    → any (conflicts c) (values (put m k d)) ≡ false
unfolding put
any-put c d k [] h new = ground (arith, new)
any-put c d k ((j, e) ∷ m) h new = elim (Bool-cases (j == k)) [
  | inl same ↦ rw same (ground (arith, new, h))
  | inr other ↦ rw other (ground (arith, h, any-put c d k m, new))
]

put-NamesApart :
    (d : ConnectedClient) (k : String) (m : Map ConnectedClient)
    → any (conflicts d) (values m) ≡ false
    → NamesApart m
    → NamesApart (put m k d)
unfolding put
put-NamesApart d k [] free h = (refl, tt)
put-NamesApart d k ((j, e) ∷ m) free h = elim (Bool-cases (j == k)) [
  | inl same ↦ rw same (ground (arith, free), h.1)
  | inr other ↦ rw other (
    any-put e d k m h.0 (conflicts_comm e d ∙ ground (arith, free)),
    put-NamesApart d k m (ground (arith, free)) h.1,
  )
]

any-remove :
    (c : ConnectedClient) (k : String) (m : Map ConnectedClient)
    → any (conflicts c) (values m) ≡ false
    → any (conflicts c) (values (remove m k)) ≡ false
unfolding remove
any-remove c k [] h = refl
any-remove c k ((j, e) ∷ m) h = elim (Bool-cases (j == k)) [
  | inl same ↦ rw same (any-remove c k m (ground (arith, h)))
  | inr other ↦ rw other (ground (arith, h, any-remove c k m))
]

remove-NamesApart : (k : String) (m : Map ConnectedClient) → NamesApart m → NamesApart (remove m k)
unfolding remove
remove-NamesApart k [] h = tt
remove-NamesApart k ((j, e) ∷ m) h = elim (Bool-cases (j == k)) [
  | inl same ↦ rw same (remove-NamesApart k m h.1)
  | inr other ↦ rw other (any-remove e k m h.0, remove-NamesApart k m h.1)
]

-- A room that is kept has a client, and its names are apart.
abbrev pub IsRoom : Room → Type 0
IsRoom room = (is_empty room.clients ≡ false) × NamesApart room.clients

abbrev pub IsHall : Map Room → Type 0
IsHall rooms = (id : String) (room : Room) → get rooms id ≡ some room → IsRoom room

put-nonempty :
    (k : String) (d : ConnectedClient) (m : Map ConnectedClient) → is_empty (put m k d) ≡ false
unfolding put
put-nonempty k d [] = refl
put-nonempty k d ((j, e) ∷ m) = ground arith

put-IsHall :
    (rooms : Map Room) (id : String) (room : Room)
    → IsHall rooms
    → IsRoom room
    → IsHall (put rooms id room)
put-IsHall rooms id room hall good j found there = elim (Bool-cases (id == j)) [
  | inl same ↦
      subst IsRoom {x = room} {y = found} (ground (arith, there, get-put rooms id j room, same))
        good
  | inr other ↦ hall j found (ground (arith, there, get-put rooms id j room, other))
]

remove-IsHall : (rooms : Map Room) (id : String) → IsHall rooms → IsHall (remove rooms id)
remove-IsHall rooms id hall j found there = elim (Bool-cases (id == j)) [
  | inl same ↦ ground (arith, there, get-remove rooms id j, same)
  | inr other ↦ hall j found (ground (arith, there, get-remove rooms id j, other))
]

put_new-IsHall :
    (rooms : Map Room) (id : String) (fresh room : Room)
    → IsHall rooms
    → IsRoom room
    → IsHall (put (put rooms id fresh) id room)
put_new-IsHall rooms id fresh room hall good j found there = elim (Bool-cases (id == j)) [
  | inl same ↦
      subst IsRoom {x = room} {y = found}
        (ground (arith, there, get-put (put rooms id fresh) id j room, same)) good
  | inr other ↦ hall j found (
      ground
        (arith, there, get-put (put rooms id fresh) id j room, get-put rooms id j fresh, other))
]

join-IsHall :
    (client : ConnectedClient) (rooms : Map Room) → IsHall rooms → IsHall (join_room client rooms).0
unfolding join_room add_client
join-IsHall client rooms hall = go (get rooms client.room_id) refl
  where
    go :
        (o : Option Room)
        → get rooms client.room_id ≡ o
        → IsHall
            (after_add client.room_id
              (or_create client.room_id o rooms)
              (add_client client (room_or_new client.room_id o))).0
    go none gone = put_new-IsHall rooms client.room_id _ _ hall (
      put-nonempty client.connection_id client [],
      put-NamesApart client client.connection_id [] refl tt,
    )
    go (some room) there = elim (Bool-cases (name_conflict room client)) [
      | inl taken ↦ rw taken hall
      | inr free ↦ rw free (
          put-IsHall rooms client.room_id _ hall (
            put-nonempty client.connection_id client room.clients,
            put-NamesApart client client.connection_id room.clients free
                (hall client.room_id room there).1,
          ))
    ]

leave-IsHall :
    (room_id connection_id : String) (rooms : Map Room)
    → IsHall rooms
    → IsHall (leave_room room_id connection_id rooms)
unfolding leave_room
leave-IsHall room_id connection_id rooms hall = go (get rooms room_id) refl
  where
    go : (o : Option Room) → get rooms room_id ≡ o → IsHall (without room_id connection_id o rooms)
    go none gone = hall
    go (some room) there = elim (Bool-cases (is_empty (remove room.clients connection_id))) [
      | inl last ↦ rw last (remove-IsHall rooms room_id hall)
      | inr some_left ↦ rw some_left (
          put-IsHall rooms room_id _ hall
            (some_left, remove-NamesApart connection_id room.clients (hall room_id room there).1))
    ]

run-keeps : (events : List Event) (rooms : Map Room) → IsHall rooms → IsHall (run events rooms)
unfolding run
run-keeps [] rooms hall = hall
run-keeps (join client ∷ events) rooms hall =
    run-keeps events (join_room client rooms).0 (join-IsHall client rooms hall)
run-keeps (leave room_id connection_id ∷ events) rooms hall =
    run-keeps events (leave_room room_id connection_id rooms)
      (leave-IsHall room_id connection_id rooms hall)

-- After any joins and leaves every room that there is has a client, and no two clients without
-- privilege in it have the same agent name.
pub run-IsHall : (events : List Event) → IsHall (run events [])
unfolding get
run-IsHall events = run-keeps events [] (λ id room there. ground (arith, there))
