-- ===== src/Examples.antt =====
-- The operations run on small inputs, and the theorems applied to them.
mod Routes
mod Services
mod Windows
mod Access
mod Flows
mod Stores
mod Gateway
mod Flights
