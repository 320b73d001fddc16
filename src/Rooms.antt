-- ===== src/Rooms.antt =====
-- The rooms of the socket server: apps/socket-server/src/rooms/Room.ts and
-- apps/socket-server/src/rooms/RoomManager.ts.
pub mod Room
pub mod Manager
mod Names
mod Broadcast
mod Tests
