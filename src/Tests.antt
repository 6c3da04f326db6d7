-- ===== src/Tests.antt =====
-- The theorems at concrete inputs, and runs of the code.
mod OfLists
mod OfCommon
mod OfServer
mod OfRegistry
mod OfClient
mod OfStart
mod OfExchange
mod OfLosses
mod OfContact
