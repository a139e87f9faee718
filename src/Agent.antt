-- ===== src/Agent.antt =====
-- Parts of a chat turn (internal/agent): the guard on streamed text, the inbox of a running turn, and
-- the history that the model is given.
pub mod TextGuard
pub mod Steer
pub mod History
pub mod Continue
pub mod Budget
pub mod JsonRepair
pub mod Assembler
