-- ===== src/Csr/Bits.antt =====
-- The bits that kernel/csr.h names.
use wl_00_rv.Prelude.{ℕ, ◌*◌, ◌^◌}

abbrev pub mstatus_mpp_mask : ℕ
mstatus_mpp_mask = 3 * 2 ^ 11

abbrev pub mstatus_mpp_s : ℕ
mstatus_mpp_s = 2 ^ 11

abbrev pub sstatus_spp : ℕ
sstatus_spp = 2 ^ 8

abbrev pub sstatus_spie : ℕ
sstatus_spie = 2 ^ 5

abbrev pub sie_seie : ℕ
sie_seie = 2 ^ 9

abbrev pub sie_stie : ℕ
sie_stie = 2 ^ 5

abbrev pub sie_ssie : ℕ
sie_ssie = 2 ^ 1

abbrev pub menvcfgh_stce : ℕ
menvcfgh_stce = 2 ^ 31

abbrev pub mcounteren_tm : ℕ
mcounteren_tm = 2 ^ 1
