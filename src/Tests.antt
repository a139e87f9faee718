-- ===== src/Tests.antt =====
-- Concrete inputs for the theorems, and runs of the definitions on them.
mod Sample
mod CheckExprTests
mod AgentTests
mod TextUtilTests
mod QueueTests
mod DocpipeTests
mod LlmTests
mod TurnTests
mod RepairTests
mod CalcTests
mod AssemblerTests
