-- ===== src/Examples.antt =====
-- Concrete inputs, and the theorems applied to them.
mod Data
mod Lives
mod Incidents
mod Access
mod Schedules
mod Watch
mod Desk
mod Files
mod Agent
mod Bus
mod Stored
mod Jobs
mod Sizes
