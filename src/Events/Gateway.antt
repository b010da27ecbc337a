-- ===== src/Events/Gateway.antt =====
-- src/events/events.gateway.ts: the rooms that sockets have joined, and what a socket hears.
use coupang_eats_backend_v.Base.{
  String, Bool, true, false, not, ◌&&◌, ◌||◌, Option, none, some, if◌then◌else◌, List, [], ◌∷◌,
  ◌==◌, ◌<>◌,
}
use coupang_eats_backend_v.World.{Message, to_room, to_all}

-- a socket, and the name of a room that it is in
abbrev pub Rooms : Type 0
Rooms = List (String × String)

abbrev pub is_in : Rooms → String → String → Bool
is_in [] room client = false
is_in ((c, r) ∷ rooms) room client = (c == client && r == room) || is_in rooms room client

-- `{ userId, role }`
pub record JoinUserRoom : Type 0 where
  pub user_id : String
  pub role : String

unfoldable pub handle_join_user_room : String → JoinUserRoom → Rooms → Rooms
handle_join_user_room client data' rooms = (client, data'.role <> (":" <> data'.user_id)) ∷ rooms

unfoldable pub handle_join_order_room : String → String → Rooms → Rooms
handle_join_order_room client order_id rooms = (client, "order:" <> order_id) ∷ rooms

-- `server.to(room).emit` reaches the sockets in the room, `server.emit` every socket
unfoldable pub hears : Rooms → Message → String → Bool
hears rooms (to_room room e) client = is_in rooms room client
hears rooms (to_all e) client = true

module _ (Coordinate : Type 0) where
  pub record DriverLocation : Type 0 where
    pub order_id : String
    pub lat : Coordinate
    pub lng : Coordinate

  -- the payload of 'driverLocation'
  pub record Position : Type 0 where
    pub lat : Coordinate
    pub lng : Coordinate

  -- what `client.to(room).emit(event, payload)` hands to socket.io
  pub record Relay : Type 0 where
    pub sender : String
    pub room : String
    pub event : String
    pub payload : Position

  unfoldable pub handle_driver_location : String → DriverLocation → Relay
  handle_driver_location client data' = record {
    sender = client;
    room = "order:" <> data'.order_id;
    event = "driverLocation";
    payload = record { lat = data'.lat; lng = data'.lng };
  }

  -- socket.io delivers it to the sockets in the room, but for the sender
  abbrev pub receives : Rooms → Relay → String → Option (String × Position)
  receives rooms r other =
      if is_in rooms r.room other && not (r.sender == other)
      then some (r.event, r.payload)
      else none
