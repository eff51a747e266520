-- ===== src/Node.antt =====
-- substrate-kitties/src: the node's service and its command line.
pub mod Effects
pub mod Framework
pub mod Service
pub mod Cli
pub mod Exit
pub mod Tests
