-- ===== src/Tests.antt =====
-- The model at work: two whole runs, and each theorem at one concrete input.
mod Network
mod World
mod Traffic
mod Runs
mod StressExamples
mod ThreadExamples
mod Examples
mod ChatExamples
mod ElementExamples
mod EventExamples
mod LifeExamples
mod LoopExamples
mod MacroExamples
mod ManyExamples
mod OutboxExamples
mod PollExamples
mod RpcExamples
