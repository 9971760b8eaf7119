-- ===== src/Tests.antt =====
-- Runs of the definitions at fixed inputs, and the instances of the theorems.
mod Net
mod Network
mod Balancing
mod Webhook
mod Controller
mod Reconciler
mod Loops
mod Command
