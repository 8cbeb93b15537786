-- ===== src/Controller.antt =====
-- pkg/gce-csi-driver/controller.go: the RPCs of the controller service, over a `GCECompute`.
pub mod Requests
pub mod Create
pub mod Delete
pub mod Publish
pub mod Capabilities
pub mod Session
pub mod Service
