-- ===== src/Chat.antt =====
-- ChatRoomManager (server/gameserver/game/chatroom_manager.cpp): the state, the role checks, the
-- broadcasts and the handlers, each in a child module.
pub mod State
pub mod Roles
pub mod Sync
pub mod Names
pub mod Valid
pub mod Leave
pub mod Create
pub mod Join
pub mod Search
pub mod Characters
pub mod Expressions
pub mod RoomUpdate
pub mod Moderation
pub mod Admin
pub mod Requests
