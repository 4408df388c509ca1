-- ===== src/Tests.antt =====
-- The theorems at concrete inputs, and runs of the source's own unit tests.
mod Samples
mod Values
mod Spans
mod Retention
mod Search
mod Server
mod Listing
mod Logs
mod Metrics
mod Queries
mod Dependencies
mod Startup
mod System
mod Searches
