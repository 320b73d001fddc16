-- ===== src/Rooms/Room.antt =====
-- `Room` of apps/socket-server/src/rooms/Room.ts. The socket of a client stands for whether it is
-- open (`readyState === 1`); a broadcast is the list of the connections that are written to.
use droid_swarm.Prelude.{
  String, Bool, not, ◌&&◌, ◌==◌, if◌then◌else◌, truthy, get_or, ◌<>◌, any, Option, List, [], ◌∷◌,
  Map, put, remove, values,
}

-- What the rooms read of a `ConnectedClient`
pub record ConnectedClient : Type 0 where
  pub connection_id : String
  pub agent_name : String
  pub privileged : Bool
  pub room_id : String
  pub is_open : Bool

pub data ChannelType : Type 0 where
  operator task planning execution review : ChannelType

pub record Room : Type 0 where
  pub room_id : String
  pub channel_type : ChannelType
  pub clients : Map ConnectedClient

-- One comparison of the loop in `addClient`
abbrev pub conflicts : ConnectedClient → ConnectedClient → Bool
conflicts client current =
    not current.privileged && not client.privileged && (current.agent_name == client.agent_name)

abbrev pub name_conflict : Room → ConnectedClient → Bool
name_conflict room client = any (conflicts client) (values room.clients)

abbrev pub duplicate_error : Room → ConnectedClient → String
duplicate_error room client =
    "Duplicate agent name '" <> client.agent_name <> "' in room '" <> room.room_id <> "'"

pub data AddResult : Type 0 where
  added : Room → AddResult
  duplicate : String → AddResult

-- `addClient`
unfoldable pub add_client : ConnectedClient → Room → AddResult
add_client client room =
    if name_conflict room client
    then duplicate (duplicate_error room client)
    else added (record room { clients = put room.clients client.connection_id client })

-- `removeClient`
abbrev pub remove_client : String → Room → Room
remove_client connection_id room = record room { clients = remove room.clients connection_id }

-- `broadcast`
abbrev pub broadcast_to : Option String → List ConnectedClient → List String
broadcast_to exclude [] = []
broadcast_to exclude (client ∷ clients) =
    let rest = broadcast_to exclude clients in
    if truthy exclude && (client.connection_id == get_or exclude "")
    then rest
    else if client.is_open
    then client.connection_id ∷ rest
    else rest

unfoldable pub broadcast : Option String → Room → List String
broadcast exclude room = broadcast_to exclude (values room.clients)
