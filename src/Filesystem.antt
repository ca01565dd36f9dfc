-- ===== src/Filesystem.antt =====
-- cpynodus_ii/core/filesystem.py over a disk whose every call may fail, and may be the last before
-- the power is lost. The children: `Disk` has the disk, the `os` calls and the way code runs on
-- them; `Always` the rules for reasoning about every plan of faults; `Commit` and `Clear` the proofs.
pub mod Disk
pub mod Always
pub mod Defs
pub mod Rules
pub mod Paths
pub mod Commit
pub mod Install
pub mod Clear
pub mod Read
mod Tests
