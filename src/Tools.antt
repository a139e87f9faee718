-- ===== src/Tools.antt =====
-- Tools that the chat model can call (internal/tools).
pub mod Calc
