-- ===== src/Controller.antt =====
-- pkg/disruptors/controller.go and pkg/disruptors/commads.go: the controller's side, which builds the
-- agent's command line for each target pod, runs it there, and cleans up after a failure.
pub mod Faults
pub mod Arguments
pub mod Commands
pub mod Outcomes
pub mod Visitor
pub mod Visit
