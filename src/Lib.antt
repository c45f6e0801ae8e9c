-- ===== src/Lib.antt =====
-- ChronoCap: the recorder and replayer of timestamped topic payloads (C++). Message callbacks push
-- payloads into a bounded ring; a writer thread drains it into a .bin file, which has a header, a
-- table of topics and the records; the reader maps such a file, checks header and table, and plays
-- the records back at their relative times.
--
-- What stands where:
--   Common          lists, Boolean tests and bit masks on native numbers.
--   Wire            include/chrono_cap/wire_format.hpp: Wire.Endian has the byte encoders and decoders
--                   (`encode_u16` to `decode_u64`), Wire.Memory the C memory functions on byte lists,
--                   Wire.Header the four structures (`FileHeader::Serialize` is
--                   `serialize_file_header`, and so on).
--   Ring            include/chrono_cap/mpsc_ring_buffer.hpp: `TryPush` is `try_push`, `TryPop` is
--                   `try_pop`; Ring.Queue is what the ring promises. Ring.Threads has the two calls
--                   split at their accesses to shared memory, for any number of producers.
--   Payload         include/chrono_cap/payload_codec.hpp: the codec of JoyMsgs.
--   Writer          include/chrono_cap/record_writer.hpp and src/core/record_writer.cpp: `WriteAll` in
--                   Writer.Output, `WriteRecord`, `MaybeFlush` and `WriteFileHeaderAndMetadata` in
--                   Writer, `WriterThreadMain` in Writer.Thread (a step for each call it makes),
--                   `Open` and `Close` in Writer.Lifecycle (`close`, and `close_beside` with pushes
--                   beside it, each one step); Writer.Split has a session with `Push` split at its
--                   accesses to the ring. Writer.Format describes the file's bytes.
--   Reader          include/chrono_cap/record_reader.hpp and src/core/record_reader.cpp:
--                   `ParseHeaderAndMetadata`, `Run` and `Walk`; `Open` in Reader.Open,
--                   `SleepUntilAbsoluteNs` and `MonotonicNowNs` in Reader.Clock, `Run` with both in
--                   Reader.Timed, what `Open` and the destructor open and close in Reader.Handles.
--   Recovery        the reader on the writer's file, whole, cut off by a crash, or with a torn record
--                   inside (Recovery.Mixed).
--   Config          include/chrono_cap/logger_config.hpp: `LoadFromFile` and `IsEnabled`.
--   Systems         include/chrono_cap/generic_recorder.hpp (`OnSetup`), generic_replayer.hpp
--                   (`OnTopicFound`), topic_registry.hpp and topic_list.hpp; Systems.Callbacks has the
--                   recorder's sample callback and the replayer's `OnRecord`.
--   Programs        src/i2wRecorder.cpp and src/i2wReplayer.cpp: the two `main`s in Programs.Recorder
--                   and Programs.Replayer, `MakeSessionBaseName` in Programs.SessionName and
--                   `configerLogger` in Programs.LogFile; in Programs.EndToEnd the recorder's file in the
--                   replayer's hands, and in Programs.AnyFile any file.
--   Tests           the theorems at concrete inputs.
--
-- Machine integers are native numbers with the wrap-around written out where the code can reach it.
-- A buffer is the list of bytes from the pointer on. write(2) is a parameter (`Descriptor`): what is
-- assumed of it is that it takes at most the count, and at least a byte of a count that is not 0
-- (`IsRegularFile`), and where stated that it does not fail (`IsReliable`). The struct JoyMsgs comes
-- from another repository and is a parameter with one law (`JoyMsgs`).
--
-- Loops: `WriteAll` runs on fuel for as many rounds as it has bytes, each round taking one at least;
-- `Run` and `Walk` on one round more than the file has bytes, a record taking 18 at least; the thread
-- that `Close` waits for on two steps for each of the ring's 4096 slots and seven more; the loop on
-- EINTR on as many calls of clock_nanosleep as are looked at; a decimal number is printed with a round
-- more than its value, which is more than it has digits. The recorder's loop is run over the list of its rounds.
--
-- What `synced` counts is the bytes that fsync was called for; its result, like the source, nobody looks at.
--
-- Not modelled: log output and the logger, which is outside the repository; orders weaker than one total
-- order of the atomic accesses (in Programs a push is one step); the i2w runtime, a library from outside, of which the models take when
-- callbacks run, what set-up, subscribe, advertise and tick give, and what publish is called with. What
-- the JSON library, create_directories and the system calls of the reader's `Open` give is a parameter.

pub mod Common
pub mod Wire
pub mod Ring
pub mod Payload
pub mod Writer
pub mod Reader
pub mod Recovery
pub mod Config
pub mod Systems
pub mod Programs
pub mod Tests
