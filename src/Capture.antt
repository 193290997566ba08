-- ===== src/Capture.antt =====
-- crates/wsrx/src/cli/capture.rs: the capture of a connection's traffic into a pcap file, the audit
-- log, and the retention of old files.
mod Tests
pub mod Bytes
pub mod Packet
pub mod Checksum
pub mod Pcap
pub mod Replay
pub mod Roundtrip
pub mod Observer
pub mod Retention
pub mod Segment
pub mod AuditLog
