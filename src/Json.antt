-- ===== src/Json.antt =====
-- The JSON helpers of src/CNT_JSON.c, over the items of src/cJSON.h.
pub mod Node
pub mod Library
pub mod Getters
pub mod Setters
pub mod Typed
pub mod Merge
pub mod Rpc
pub mod Access
pub mod Convert
pub mod Diff
pub mod Files
pub mod Hash
