-- ===== src/Im.antt =====
-- The instant-messaging layer.
pub mod Group
pub mod GroupManager
pub mod GroupService
pub mod GroupJoinService
pub mod FriendService
pub mod MessageSyncService
pub mod MsgType
pub mod ErrorCode
pub mod Json
pub mod ImMessage
pub mod ImCodec
pub mod ImService
pub mod SessionManager
