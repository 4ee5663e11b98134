-- ===== src/Pipe.antt =====
-- Pipe/PipeClient and Pipe/PipeServer: messages over a named pipe. A writer puts the length of a
-- message before it; the reader collects what the pipe delivers and cuts it into messages again. Both
-- programs have the same files ChannelUtils.cpp and PipeDefine.h.
pub mod Memory
pub mod Codec
pub mod CodecLaws
pub mod Reader
pub mod Framing
pub mod Stream
pub mod Replay
pub mod Writer
pub mod Delivery
mod Tests
