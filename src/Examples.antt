-- ===== src/Examples.antt =====
-- The theorems on concrete inputs: one module for each part.
mod FrameExamples
mod ResponseExamples
mod ConfigExamples
mod ConnectionExamples
mod HandshakeExamples
mod PoolExamples
mod OpeningExamples
mod StatementExamples
mod RowExamples
mod NodeExamples
mod SessionExamples
mod EventExamples
mod SharedExamples
mod TypesExamples
mod TopologyExamples
