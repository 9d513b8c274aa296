-- ===== src/Symtab.antt =====
-- The function tables of dstc.c: the server and client functions of this process, and the functions
-- that remote nodes have announced. Each is an array with the index of its first free slot.
pub mod Local
pub mod Remote
pub mod Sound
