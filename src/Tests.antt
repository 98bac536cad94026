-- ===== src/Tests.antt =====
-- Runs of the models on concrete inputs.
mod Data
mod Agents
mod Requests
mod Selection
mod Coordinators
mod Portmaps
mod Posts
mod Workers
mod Initiators
