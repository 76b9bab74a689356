-- ===== src/Binary.antt =====
-- system/lib/binaryHelpers.ts: bytes, hexadecimal text and bits. A text is the list of its character
-- codes, a Uint8Array the list of its bytes; a number stored into it is taken modulo 256.
pub mod Radix
pub mod Hex
pub mod Bits
