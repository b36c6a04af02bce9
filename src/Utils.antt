-- ===== src/Utils.antt =====
-- controllers/utils/utils.go
pub mod PodName
pub mod ContainerName
pub mod Pods
pub mod Services
