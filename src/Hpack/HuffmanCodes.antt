-- ===== src/Hpack/HuffmanCodes.antt =====
-- src/hpack.cpp, kHuffmanCodes: each symbol's Huffman code (RFC 7541, Appendix B), the code and the
-- number of its bits, the end-of-string symbol last.
use log_squirl_tcpdump.Common.{ℕ, List, [], ◌∷◌}

pub record HuffmanCode : Type 0 where
  pub code : ℕ
  pub bits : ℕ

abbrev c : ℕ → ℕ → HuffmanCode
c code bits = record { code = code; bits = bits }

unfoldable pub huffman_codes : List HuffmanCode
huffman_codes =
    c 0x1ff8 13
    ∷ c 0x7fffd8 23
    ∷ c 0xfffffe2 28
    ∷ c 0xfffffe3 28
    ∷ c 0xfffffe4 28
    ∷ c 0xfffffe5 28
    ∷ c 0xfffffe6 28
    ∷ c 0xfffffe7 28
    ∷ c 0xfffffe8 28
    ∷ c 0xffffea 24
    ∷ c 0x3ffffffc 30
    ∷ c 0xfffffe9 28
    ∷ c 0xfffffea 28
    ∷ c 0x3ffffffd 30
    ∷ c 0xfffffeb 28
    ∷ c 0xfffffec 28
    ∷ c 0xfffffed 28
    ∷ c 0xfffffee 28
    ∷ c 0xfffffef 28
    ∷ c 0xffffff0 28
    ∷ c 0xffffff1 28
    ∷ c 0xffffff2 28
    ∷ c 0x3ffffffe 30
    ∷ c 0xffffff3 28
    ∷ c 0xffffff4 28
    ∷ c 0xffffff5 28
    ∷ c 0xffffff6 28
    ∷ c 0xffffff7 28
    ∷ c 0xffffff8 28
    ∷ c 0xffffff9 28
    ∷ c 0xffffffa 28
    ∷ c 0xffffffb 28
    ∷ c 0x14 6
    ∷ c 0x3f8 10
    ∷ c 0x3f9 10
    ∷ c 0xffa 12
    ∷ c 0x1ff9 13
    ∷ c 0x15 6
    ∷ c 0xf8 8
    ∷ c 0x7fa 11
    ∷ c 0x3fa 10
    ∷ c 0x3fb 10
    ∷ c 0xf9 8
    ∷ c 0x7fb 11
    ∷ c 0xfa 8
    ∷ c 0x16 6
    ∷ c 0x17 6
    ∷ c 0x18 6
    ∷ c 0x0 5
    ∷ c 0x1 5
    ∷ c 0x2 5
    ∷ c 0x19 6
    ∷ c 0x1a 6
    ∷ c 0x1b 6
    ∷ c 0x1c 6
    ∷ c 0x1d 6
    ∷ c 0x1e 6
    ∷ c 0x1f 6
    ∷ c 0x5c 7
    ∷ c 0xfb 8
    ∷ c 0x7ffc 15
    ∷ c 0x20 6
    ∷ c 0xffb 12
    ∷ c 0x3fc 10
    ∷ c 0x1ffa 13
    ∷ c 0x21 6
    ∷ c 0x5d 7
    ∷ c 0x5e 7
    ∷ c 0x5f 7
    ∷ c 0x60 7
    ∷ c 0x61 7
    ∷ c 0x62 7
    ∷ c 0x63 7
    ∷ c 0x64 7
    ∷ c 0x65 7
    ∷ c 0x66 7
    ∷ c 0x67 7
    ∷ c 0x68 7
    ∷ c 0x69 7
    ∷ c 0x6a 7
    ∷ c 0x6b 7
    ∷ c 0x6c 7
    ∷ c 0x6d 7
    ∷ c 0x6e 7
    ∷ c 0x6f 7
    ∷ c 0x70 7
    ∷ c 0x71 7
    ∷ c 0x72 7
    ∷ c 0xfc 8
    ∷ c 0x73 7
    ∷ c 0xfd 8
    ∷ c 0x1ffb 13
    ∷ c 0x7fff0 19
    ∷ c 0x1ffc 13
    ∷ c 0x3ffc 14
    ∷ c 0x22 6
    ∷ c 0x7ffd 15
    ∷ c 0x3 5
    ∷ c 0x23 6
    ∷ c 0x4 5
    ∷ c 0x24 6
    ∷ c 0x5 5
    ∷ c 0x25 6
    ∷ c 0x26 6
    ∷ c 0x27 6
    ∷ c 0x6 5
    ∷ c 0x74 7
    ∷ c 0x75 7
    ∷ c 0x28 6
    ∷ c 0x29 6
    ∷ c 0x2a 6
    ∷ c 0x7 5
    ∷ c 0x2b 6
    ∷ c 0x76 7
    ∷ c 0x2c 6
    ∷ c 0x8 5
    ∷ c 0x9 5
    ∷ c 0x2d 6
    ∷ c 0x77 7
    ∷ c 0x78 7
    ∷ c 0x79 7
    ∷ c 0x7a 7
    ∷ c 0x7b 7
    ∷ c 0x7ffe 15
    ∷ c 0x7fc 11
    ∷ c 0x3ffd 14
    ∷ c 0x1ffd 13
    ∷ c 0xffffffc 28
    ∷ c 0xfffe6 20
    ∷ c 0x3fffd2 22
    ∷ c 0xfffe7 20
    ∷ c 0xfffe8 20
    ∷ c 0x3fffd3 22
    ∷ c 0x3fffd4 22
    ∷ c 0x3fffd5 22
    ∷ c 0x7fffd9 23
    ∷ c 0x3fffd6 22
    ∷ c 0x7fffda 23
    ∷ c 0x7fffdb 23
    ∷ c 0x7fffdc 23
    ∷ c 0x7fffdd 23
    ∷ c 0x7fffde 23
    ∷ c 0xffffeb 24
    ∷ c 0x7fffdf 23
    ∷ c 0xffffec 24
    ∷ c 0xffffed 24
    ∷ c 0x3fffd7 22
    ∷ c 0x7fffe0 23
    ∷ c 0xffffee 24
    ∷ c 0x7fffe1 23
    ∷ c 0x7fffe2 23
    ∷ c 0x7fffe3 23
    ∷ c 0x7fffe4 23
    ∷ c 0x1fffdc 21
    ∷ c 0x3fffd8 22
    ∷ c 0x7fffe5 23
    ∷ c 0x3fffd9 22
    ∷ c 0x7fffe6 23
    ∷ c 0x7fffe7 23
    ∷ c 0xffffef 24
    ∷ c 0x3fffda 22
    ∷ c 0x1fffdd 21
    ∷ c 0xfffe9 20
    ∷ c 0x3fffdb 22
    ∷ c 0x3fffdc 22
    ∷ c 0x7fffe8 23
    ∷ c 0x7fffe9 23
    ∷ c 0x1fffde 21
    ∷ c 0x7fffea 23
    ∷ c 0x3fffdd 22
    ∷ c 0x3fffde 22
    ∷ c 0xfffff0 24
    ∷ c 0x1fffdf 21
    ∷ c 0x3fffdf 22
    ∷ c 0x7fffeb 23
    ∷ c 0x7fffec 23
    ∷ c 0x1fffe0 21
    ∷ c 0x1fffe1 21
    ∷ c 0x3fffe0 22
    ∷ c 0x1fffe2 21
    ∷ c 0x7fffed 23
    ∷ c 0x3fffe1 22
    ∷ c 0x7fffee 23
    ∷ c 0x7fffef 23
    ∷ c 0xfffea 20
    ∷ c 0x3fffe2 22
    ∷ c 0x3fffe3 22
    ∷ c 0x3fffe4 22
    ∷ c 0x7ffff0 23
    ∷ c 0x3fffe5 22
    ∷ c 0x3fffe6 22
    ∷ c 0x7ffff1 23
    ∷ c 0x3ffffe0 26
    ∷ c 0x3ffffe1 26
    ∷ c 0xfffeb 20
    ∷ c 0x7fff1 19
    ∷ c 0x3fffe7 22
    ∷ c 0x7ffff2 23
    ∷ c 0x3fffe8 22
    ∷ c 0x1ffffec 25
    ∷ c 0x3ffffe2 26
    ∷ c 0x3ffffe3 26
    ∷ c 0x3ffffe4 26
    ∷ c 0x7ffffde 27
    ∷ c 0x7ffffdf 27
    ∷ c 0x3ffffe5 26
    ∷ c 0xfffff1 24
    ∷ c 0x1ffffed 25
    ∷ c 0x7fff2 19
    ∷ c 0x1fffe3 21
    ∷ c 0x3ffffe6 26
    ∷ c 0x7ffffe0 27
    ∷ c 0x7ffffe1 27
    ∷ c 0x3ffffe7 26
    ∷ c 0x7ffffe2 27
    ∷ c 0xfffff2 24
    ∷ c 0x1fffe4 21
    ∷ c 0x1fffe5 21
    ∷ c 0x3ffffe8 26
    ∷ c 0x3ffffe9 26
    ∷ c 0xffffffd 28
    ∷ c 0x7ffffe3 27
    ∷ c 0x7ffffe4 27
    ∷ c 0x7ffffe5 27
    ∷ c 0xfffec 20
    ∷ c 0xfffff3 24
    ∷ c 0xfffed 20
    ∷ c 0x1fffe6 21
    ∷ c 0x3fffe9 22
    ∷ c 0x1fffe7 21
    ∷ c 0x1fffe8 21
    ∷ c 0x7ffff3 23
    ∷ c 0x3fffea 22
    ∷ c 0x3fffeb 22
    ∷ c 0x1ffffee 25
    ∷ c 0x1ffffef 25
    ∷ c 0xfffff4 24
    ∷ c 0xfffff5 24
    ∷ c 0x3ffffea 26
    ∷ c 0x7ffff4 23
    ∷ c 0x3ffffeb 26
    ∷ c 0x7ffffe6 27
    ∷ c 0x3ffffec 26
    ∷ c 0x3ffffed 26
    ∷ c 0x7ffffe7 27
    ∷ c 0x7ffffe8 27
    ∷ c 0x7ffffe9 27
    ∷ c 0x7ffffea 27
    ∷ c 0x7ffffeb 27
    ∷ c 0xffffffe 28
    ∷ c 0x7ffffec 27
    ∷ c 0x7ffffed 27
    ∷ c 0x7ffffee 27
    ∷ c 0x7ffffef 27
    ∷ c 0x7fffff0 27
    ∷ c 0x3ffffee 26
    ∷ c 0x3fffffff 30
    ∷ []
