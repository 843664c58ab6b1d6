-- ===== src/Lib.antt =====
-- VSM field workstation: the path between the serial port of the CSM board and the operator.
--
-- The board sends a stream of typed frames. The parser cuts it into records, which are decoded; the
-- board's capability and health records are the evidence for the gate on host control. In the other
-- direction the control cycle takes the operator's target through the slew limiter, encodes a burst
-- of CAN frames as host commands, and the serial worker queues the frames and writes them.
--
-- Files, and the code they model:
--   Wire: little-endian fields and the checksum, src/backend/TypedRecords.cpp,
--     TypedTransportParser.cpp and ControlCommandEncoder.cpp (typedReadU16Le is read_u16_le, wrU16Le
--     is write_u16_le, crc16Ccitt is crc16_ccitt).
--   Typed, Typed/RecordType, Typed/Records, Typed/Decode: src/backend/TypedRecords.h and
--     TypedRecords.cpp (decodeTypedCanRaw is decode_can_raw). Typed/Frame is the layout of a frame as
--     shared/protocol/typed_stream_v1.md gives it, which parser and encoder are held against.
--   Typed/Parser: src/backend/TypedTransportParser.h and TypedTransportParser.cpp (takeOne is
--     take_one; the body of its loop is take_round and frame_round; findSof is find_sof).
--   Control/Encoder: src/backend/ControlCommandEncoder.h, ControlCommandEncoder.cpp, and idText and
--     hexBytes of src/backend/CanTypes.h.
--   Control/Slew: src/backend/control/ControlSlewLimiter.h and ControlSlewLimiter.cpp.
--   Control/Cycle, Control/Cycle/Operations: src/backend/control/ControlCycleRuntime.h and
--     ControlCycleRuntime.cpp (drainPendingFrames is drain_pending_frames, makeBurst is make_burst).
--   HostTx: src/backend/transport/HostTxQueue.h, HostTxQueue.cpp, HostTxRuntime.h, HostTxRuntime.cpp.
--   Evidence/Board: src/backend/evidence/BoardConnectionState.h, BoardConnectionState.cpp,
--     EvidenceRuntime.h and EvidenceRuntime.cpp.
--   Evidence/BusRole: src/backend/evidence/BusRoleResolver.h and BusRoleResolver.cpp.
--   Control/Audit: src/backend/control/ControlAuditModel.h and ControlAuditModel.cpp (appendEvent is
--     append_event, takeAcceptedCommandId is take_accepted_command_id).
--   Control/Runtime: src/backend/control/ControlRuntime.h and ControlRuntime.cpp.
--   Packet, Packet/Stream: src/backend/PacketParser.h and PacketParser.cpp, with the records of
--     src/backend/CanTypes.h.
--   Ingress/Typed: src/backend/transport/TypedIngressRuntime.h and TypedIngressRuntime.cpp, over the
--     interface Ingress/Storage of the storage.
--   Ingress/Legacy: src/backend/transport/LegacyIngressRuntime.h and LegacyIngressRuntime.cpp, over
--     the interface RecorderOps of the recorder.
--   Ingress/Projection: src/backend/transport/LiveProjectionRuntime.h and LiveProjectionRuntime.cpp.
--   Alarm: src/backend/AlarmManager.h, AlarmManager.cpp, LevelState.h, LevelState.cpp and the types of
--     src/backend/AnalysisTypes.h that they use.
--   Foreign: the functions of QString and the type double, which are parameters of the definitions
--     that use them. No law of them is assumed, but for an order of the doubles, which
--     the theorem that needs it takes as a hypothesis.
--   Prelude: shared names, tests, lists, bits and integers. The files named Tests hold examples.
--
-- An object is a record of its members, and a member function maps the record to a new one and a
-- result. Machine words are numbers with the wrap written out; `int` values are unbounded integers,
-- which the clamps of the code keep far from the limits of an int, and sizes of buffers stay below
-- 2 ^ 31. The loop of takeOne runs on fuel, one more than the buffered bytes: each round that goes on
-- drops a byte at least. The loops of ingest have one round more than the buffered bytes, since a
-- record takes a byte at least, and that of drainPendingFrames has one
-- round more than the queued frames.
-- The reading of a clock is an argument of the call that makes it.
--
-- Not modelled: Qt's signals, timers and serial port, files, list models and QML, which are input and
-- output; and, for now, the storage and the recorder behind their interfaces, the
-- session counters, replay, timing limits and signal decoding.
pub mod Prelude
pub mod Wire
pub mod Typed
pub mod Foreign
pub mod Control
pub mod HostTx
pub mod Evidence
pub mod Packet
pub mod Ingress
pub mod Alarm
