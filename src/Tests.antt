-- ===== src/Tests.antt =====
-- The theorems at concrete inputs, one module for each part of the program.
mod Data
mod Wire
mod Ring
mod Writer
mod Split
mod Reader
mod Config
mod Systems
mod Threads
mod OneRound
mod Programs
mod AnyFile
