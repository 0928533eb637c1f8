-- ===== src/Agent.antt =====
-- src/sample/agent: the SOUL prompt and the loop that answers one message.
pub mod Soul
pub mod Loop
