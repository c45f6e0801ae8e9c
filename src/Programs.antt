-- ===== src/Programs.antt =====
-- src/i2wRecorder.cpp and src/i2wReplayer.cpp: the two programs. What the i2w runtime does with a
-- system's set-up and its ticks is a parameter.
pub mod Recorder
pub mod Replayer
pub mod Exits
pub mod Returns
pub mod AnyFile
pub mod EndToEnd
pub mod SessionName
pub mod LogFile
