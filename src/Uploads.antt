-- ===== src/Uploads.antt =====
-- hub/src/api/upload.ts and hub/src/api/multipart.ts: the routes by which a machine stores a file.
-- The state is what they touch of one path (machine, store, relpath): its R2 objects, its `files`
-- row, the sessions and the messages sent. `detect(store, relpath, machineId)` depends on the path
-- only and is an argument here; SHA-256 is a parameter, and a hash of 64 hexadecimal digits is the
-- number that it spells. The row of the machine (`ensurePreviewUploadMachine`, `last_upload_at`),
-- D1 outages and the logs are left out; R2 and the queue may fail at any call.
pub mod State
pub mod Objects
pub mod Rows
pub mod Finish
pub mod Put
pub mod Check
pub mod Multipart
pub mod Complete
pub mod Keeping
pub mod Recovery
pub mod Tests
