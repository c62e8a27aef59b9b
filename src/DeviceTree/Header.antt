-- ===== src/DeviceTree/Header.antt =====
-- src/DeviceTree.h, `struct FDTHeader`: the byte offsets of its fields.
use floss.Base.{ℕ}

abbrev pub magic : ℕ
magic = 0

abbrev pub totalsize : ℕ
totalsize = 4

abbrev pub off_dt_struct : ℕ
off_dt_struct = 8

abbrev pub off_dt_strings : ℕ
off_dt_strings = 12

abbrev pub off_mem_rsvmap : ℕ
off_mem_rsvmap = 16

abbrev pub version : ℕ
version = 20

abbrev pub last_comp_version : ℕ
last_comp_version = 24

abbrev pub boot_cpuid_phys : ℕ
boot_cpuid_phys = 28

abbrev pub size_dt_strings : ℕ
size_dt_strings = 32

abbrev pub size_dt_struct : ℕ
size_dt_struct = 36
