-- ===== src/Io.antt =====
-- kernel/io.c: the I/O manager. Io/State is its data, Io/Rings the ring of a pipe, Io/Open what
-- makes a descriptor, Io/Close what lets one go or copies it, Io/Transfer reading, writing and
-- asking, Io/Offset the position of a file, Io/Front the process in front of a terminal, Io/Register
-- the devices, Io/Counts who holds what.
pub mod State
pub mod Rings
pub mod Open
pub mod Close
pub mod Transfer
pub mod Offset
pub mod Front
pub mod Register
pub mod Counts
