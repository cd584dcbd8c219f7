-- ===== src/Events.antt =====
-- Reading the events of a contract page by page: `EventCursor` of src/utils/event-cursor.ts. Cursors, ids
-- and topics are numbers, since they are only compared.
pub mod Page
pub mod Cursor
pub mod Step
pub mod Loop
pub mod Complete
mod Tests
