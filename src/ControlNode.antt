-- ===== src/ControlNode.antt =====
-- my_code/control_node: the process that routes commands to the storage processes.
pub mod ControlMeta
pub mod ControlImpl
pub mod Cluster
