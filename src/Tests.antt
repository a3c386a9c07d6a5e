-- ===== src/Tests.antt =====
-- Concrete runs, at which the theorems apply.
mod Samples
mod Budgets
mod Generators
mod Routes
mod Requests
mod Services
mod Clients
mod Sounds
mod Words
mod Images
mod Peaks
mod Monitors
mod Programs
mod Startups
mod Sockets
