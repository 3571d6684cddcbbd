-- ===== src/Cipher.antt =====
-- src/xchacha20poly1305.c: the authenticated cipher that seals encrypted pages, in its portable path.
pub mod Range
pub mod Chacha
pub mod Poly
pub mod Aead
