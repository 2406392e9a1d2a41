-- ===== src/Tests.antt =====
-- Applications of the theorems at concrete inputs, and a concrete JSON library for them.
pub mod JsonExample
pub mod ChatExamples
pub mod ServerExamples
pub mod AccountExamples
pub mod CacheExamples
