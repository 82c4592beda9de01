-- ===== src/Tests.antt =====
-- Runs at concrete inputs, and each theorem applied to one.
mod Paths
mod Uploads
mod Access
mod Limits
mod Requests
mod Chats
mod FileForms
mod Media
mod LibraryForms
mod Imports
mod Scans
mod Watches
mod Serving
mod Clips
mod Visits
mod Shares
mod Messages
