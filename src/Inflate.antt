-- ===== src/Inflate.antt =====
-- src/inflate.cpp, the decoder of raw DEFLATE streams (RFC 1951): the bit reader, the canonical
-- Huffman tables, the three kinds of block and the loop over blocks, with what is proved of each
-- in the child modules.
pub mod Reader
pub mod Huffman
pub mod Codes
pub mod Blocks
mod Tests
