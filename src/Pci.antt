-- ===== src/Pci.antt =====
-- kernel/src/pci.rs and kernel/src/pci/: the windows of device memory.
pub mod Vmm
pub mod Dma
pub mod Mcfg

-- `PciError`
pub data PciError : Type 0 where
  mcfg_not_found ecam_mapping_failed invalid_device msi_x_setup_failed allocation_failed : PciError
