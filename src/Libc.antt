-- ===== src/Libc.antt =====
-- The C library of the user programs, xiaobaios/src.
pub mod Ctype
pub mod Memory
pub mod Pointer
pub mod Copying
pub mod Comparing
pub mod Searching
pub mod Number
pub mod Heap
