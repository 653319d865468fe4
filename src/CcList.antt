-- ===== src/CcList.antt =====
-- cc_list.h and cc_list.c.
pub mod Store
pub mod Pool
pub mod Links
pub mod Chain
pub mod Refine
pub mod Move
pub mod Alloc
pub mod Ops
pub mod Insert
pub mod Sorted
pub mod Delete
pub mod Search
pub mod Swap
pub mod Place
pub mod Splice
pub mod Transfer
pub mod Tests
