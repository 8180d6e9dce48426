-- ===== src/Tests.antt =====
-- Runs of the code at small inputs, and the theorems applied to them.
mod Trees
mod Sessions
mod Requests
mod Sockets
mod Messages
mod Lists
mod Hooks
mod Forms
mod Tracks
mod Journeys
mod Desk
mod Billing
mod Views
