-- ===== src/Accounts.antt =====
-- AccountManager (server/gameserver/game/account_manager.cpp): the online registry, the handlers of an
-- account that is logged in, and the desk that creates accounts, queues logins and resets passwords.
-- What a coroutine does between two of its `co_await`s is one step; the answers of the database come
-- as arguments of the step that follows, and its writes are effects.
pub mod Merge
pub mod Registry
pub mod Login
pub mod Update
pub mod Contact
pub mod Desk
pub mod Bond
pub mod Ownership
pub mod Lovership
pub mod Requests
