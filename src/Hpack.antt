-- ===== src/Hpack.antt =====
-- src/hpack.h and src/hpack.cpp: the HPACK decoder of HTTP/2 header blocks (RFC 7541).
pub mod HuffmanCodes
pub mod StaticTable
pub mod Huffman
pub mod Block
pub mod Decoder
